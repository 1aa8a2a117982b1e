-- ===== src/Tools/Registry/Recent.antt =====
-- The timestamps of `RegisteredTool._check_rate_limit` that are not older than a minute.
use agent_orchestration_syst.Common.{
  ℕ, ◌+◌, ◌≤◌, ◌≡◌, refl, Bool, List, [], ◌∷◌, ◌++◌, leb, keep, All, All-append, Bool-cases, inl,
  inr, arith,
}
use agent_orchestration_syst.Tools.Registry.{drop_expired, minute}

-- The timestamp is at most a minute old.
abbrev pub is_recent : (now t : ℕ) → Bool
is_recent now t = leb now (t + minute)

-- No timestamp is later than the next.
abbrev pub IsAscending : List ℕ → Type 0
IsAscending [] = Unit
IsAscending (t ∷ ts) = All (λ u. t ≤ u) ts × IsAscending ts

pub keep-All : (P : ℕ → Type 0) (p : ℕ → Bool) (ts : List ℕ) → All P ts → All P (keep p ts)
keep-All P p [] h = tt
keep-All P p (t ∷ ts) h = elim (Bool-cases (p t)) [
  | inl e ↦ rw (e, All) (h.0, keep-All P p ts h.1)
  | inr e ↦ rw (e, All) (keep-All P p ts h.1)
]

pub keep-IsAscending : (p : ℕ → Bool) (ts : List ℕ) → IsAscending ts → IsAscending (keep p ts)
keep-IsAscending p [] h = tt
keep-IsAscending p (t ∷ ts) h = elim (Bool-cases (p t)) [
  | inl e ↦ rw (e, IsAscending) (keep-All (λ u. t ≤ u) p ts h.0, keep-IsAscending p ts h.1)
  | inr e ↦ rw (e, IsAscending) (keep-IsAscending p ts h.1)
]

pub append-IsAscending :
    (ts : List ℕ) (now : ℕ) → IsAscending ts → All (λ t. t ≤ now) ts → IsAscending (ts ++ now ∷ [])
append-IsAscending [] now h k = (tt, tt)
append-IsAscending (t ∷ ts) now h k =
    (All-append (λ u. t ≤ u) ts (now ∷ []) h.0 (k.0, tt), append-IsAscending ts now h.1 k.1)

keep-recent :
    (now : ℕ) (ts : List ℕ) (t : ℕ)
    → All (λ u. t ≤ u) ts
    → now ≤ t + minute
    → keep (is_recent now) ts ≡ ts
keep-recent now [] t h e = refl
keep-recent now (u ∷ ts) t h e = ground (arith, keep-recent now ts t h.1 e, h.0)

-- On ascending timestamps the loop from the left removes all that are too old.
pub drop_expired-keep :
    (now : ℕ) (ts : List ℕ) → IsAscending ts → drop_expired now ts ≡ keep (is_recent now) ts
unfolding drop_expired
drop_expired-keep now [] h = refl
drop_expired-keep now (t ∷ ts) h =
    ground (arith, drop_expired-keep now ts h.1, keep-recent now ts t h.0)

-- What was removed earlier would be removed now.
pub keep-keep :
    (last now : ℕ) (ts : List ℕ)
    → last ≤ now
    → keep (is_recent now) (keep (is_recent last) ts) ≡ keep (is_recent now) ts
keep-keep last now [] h = refl
keep-keep last now (t ∷ ts) h = ground (arith, keep-keep last now ts h)

pub keep-append : (p : ℕ → Bool) (xs ys : List ℕ) → keep p (xs ++ ys) ≡ keep p xs ++ keep p ys
keep-append p [] ys = refl
keep-append p (x ∷ xs) ys = ground (arith, keep-append p xs ys)
