-- ===== src/Tools/Registry/RateLimit.antt =====
-- What `RegisteredTool._check_rate_limit` promises, stated on the history of admitted calls and
-- not on a deque that is shortened as time goes on.
use agent_orchestration_syst.Common.{
  ℕ, ◌≤◌, ◌≡◌, refl, Bool, true, false, List, [], ◌∷◌, ◌++◌, leb, ltb, length, keep, All,
  if◌then◌else◌, All-map, All-append, Bool-cases, inl, inr, ◌⊎◌, arith, ap, ◌∙◌,
}
use agent_orchestration_syst.Tools.Registry.{RegisteredTool, check_rate_limit, drop_expired}
use agent_orchestration_syst.Tools.Registry.Recent.{
  is_recent, IsAscending, append-IsAscending, drop_expired-keep, keep-IsAscending, keep-keep,
}

-- A call is admitted while fewer than `limit` calls of the last minute were.
unfoldable pub admits : (limit : ℕ) (history : List ℕ) (now : ℕ) → Bool
admits limit history now = ltb (length (keep (is_recent now) history)) limit

-- The answers to calls at some times, by the history.
unfoldable pub admissions : (limit : ℕ) (history times : List ℕ) → List Bool
admissions limit history [] = []
admissions limit history (now ∷ times) =
    let yes = admissions limit (history ++ now ∷ []) times in
    let no = admissions limit history times in
    if admits limit history now then true ∷ yes else false ∷ no

-- The answers of the tool.
unfoldable pub answers : RegisteredTool → (times : List ℕ) → List Bool
answers tool [] = []
answers tool (now ∷ times) =
    let (tool', admitted) = check_rate_limit tool now in admitted ∷ answers tool' times

-- The deque holds the recent part of the history, which is ascending and not later than `last`.
abbrev pub Holds : (tool : RegisteredTool) (last : ℕ) (history : List ℕ) → Type 0
Holds tool last history =
    (tool.call_timestamps ≡ keep (is_recent last) history)
    × IsAscending history
    × All (λ t. t ≤ last) history

shortened :
    (tool : RegisteredTool) (last : ℕ) (history : List ℕ) (now : ℕ)
    → last ≤ now
    → Holds tool last history
    → drop_expired now tool.call_timestamps ≡ keep (is_recent now) history
shortened tool last history now le h =
    ap (drop_expired now) h.0
    ∙ drop_expired-keep now (keep (is_recent last) history)
        (keep-IsAscending (is_recent last) history h.1)
    ∙ keep-keep last now history le

recent_append :
    (now : ℕ) (history : List ℕ)
    → keep (is_recent now) (history ++ now ∷ []) ≡ keep (is_recent now) history ++ now ∷ []
recent_append now [] = ground arith
recent_append now (t ∷ ts) = ground (arith, recent_append now ts)

-- One call: the answer of the history, and the deque goes on holding its recent part.
check_rate_limit-Holds :
    (tool : RegisteredTool) (last : ℕ) (history : List ℕ) (now : ℕ)
    → last ≤ now
    → Holds tool last history
    → ((admits tool.rate_limit_per_minute history now ≡ true)
        × ((check_rate_limit tool now).1 ≡ true)
        × ((check_rate_limit tool now).0.rate_limit_per_minute ≡ tool.rate_limit_per_minute)
        × Holds (check_rate_limit tool now).0 now (history ++ now ∷ []))
      ⊎ ((admits tool.rate_limit_per_minute history now ≡ false)
          × ((check_rate_limit tool now).1 ≡ false)
          × ((check_rate_limit tool now).0.rate_limit_per_minute ≡ tool.rate_limit_per_minute)
          × Holds (check_rate_limit tool now).0 now history)
unfolding check_rate_limit admits
check_rate_limit-Holds tool last history now le h =
    elim (Bool-cases
      (leb tool.rate_limit_per_minute (length (drop_expired now tool.call_timestamps)))) [
        | inl e ↦ inr (
          ground (arith, same, e),
          ground (arith, e),
          ground (arith, e),
          (ground (arith, same, e), h.1, early),
        )
        | inr e ↦ inl (
          ground (arith, same, e),
          ground (arith, e),
          ground (arith, e),
          (
            ground (arith, same, e, recent_append now history),
            append-IsAscending history now h.1 early,
            All-append (λ t. t ≤ now) history (now ∷ []) early (omega arith, tt),
          ),
        )
      ]
  where
    same : drop_expired now tool.call_timestamps ≡ keep (is_recent now) history
    same = shortened tool last history now le h

    early : All (λ t. t ≤ now) history
    early = All-map (λ t. t ≤ last) (λ t. t ≤ now) (λ t k. omega (arith, k, le)) history h.2

answers-Holds :
    (tool : RegisteredTool) (last : ℕ) (history times : List ℕ)
    → Holds tool last history
    → IsAscending (last ∷ times)
    → answers tool times ≡ admissions tool.rate_limit_per_minute history times
unfolding answers admissions
answers-Holds tool last history [] h k = refl
answers-Holds tool last history (now ∷ times) h k =
    elim (check_rate_limit-Holds tool last history now k.0.0 h) [
      | inl (a, b, c, holds) ↦ ground (
        arith,
        a,
        b,
        c,
        answers-Holds (check_rate_limit tool now).0 now (history ++ now ∷ []) times holds k.1,
      )
      | inr (a, b, c, holds) ↦
          ground (
            arith,
            a,
            b,
            c,
            answers-Holds (check_rate_limit tool now).0 now history times holds k.1,
          )
    ]

-- A tool that was just registered, asked at times that do not go back, answers as the history
-- of its admitted calls says: yes while fewer than the limit were in the last minute.
pub answers-admissions :
    (tool : RegisteredTool) (times : List ℕ)
    → tool.call_timestamps ≡ []
    → IsAscending times
    → answers tool times ≡ admissions tool.rate_limit_per_minute [] times
answers-admissions tool times e h = answers-Holds tool 0 [] times (e, tt, tt) (later times, h)
  where
    later : (ts : List ℕ) → All (λ t. 0 ≤ t) ts
    later [] = tt
    later (t ∷ ts) = (omega arith, later ts)
