-- ===== src/Tools/Registry/Limits.antt =====
-- tools/registry.py: what `_check_rate_limit` makes of any deque of timestamps, its order included.
use agent_orchestration_syst.Common.{
  ℕ, ◌+◌, ◌≤◌, ◌<◌, ◌≡◌, refl, Bool, true, false, List, [], ◌∷◌, ◌++◌, leb, ltb, length, All, ap,
  Bool-cases, inl, inr, arith,
}
use agent_orchestration_syst.Tools.Registry.{RegisteredTool, check_rate_limit, drop_expired}

-- The deque is empty or starts with a call that is not older than 60 seconds.
pub data IsFresh (now : ℕ) : List ℕ → Type 0 where
  empty : IsFresh now []
  starts : (t : ℕ) (ts : List ℕ) → now ≤ t + 60_000_000_000 → IsFresh now (t ∷ ts)

-- The deque is some calls that are older than 60 seconds, and then those that are left.
pub record IsWindow (now : ℕ) (timestamps recent : List ℕ) : Type 0 where
  pub older : List ℕ
  pub parts : timestamps ≡ older ++ recent
  pub expired : All (λ t. t + 60_000_000_000 < now) older
  pub fresh : IsFresh now recent

-- The tool after a call at a time, and whether the call goes on: it does while fewer calls are left
-- than the limit, and is then added to them. All but the timestamps stays as it was.
pub data Limits (tool : RegisteredTool) (now : ℕ) : RegisteredTool → Bool → Type 0 where
  refused :
      (recent : List ℕ)
      → IsWindow now tool.call_timestamps recent
      → tool.rate_limit_per_minute ≤ length recent
      → Limits tool now (record tool { call_timestamps = recent }) false
  admitted :
      (recent : List ℕ)
      → IsWindow now tool.call_timestamps recent
      → length recent < tool.rate_limit_per_minute
      → Limits tool now (record tool { call_timestamps = recent ++ now ∷ [] }) true

drop_expired-IsWindow : (now : ℕ) (ts : List ℕ) → IsWindow now ts (drop_expired now ts)
unfolding drop_expired
drop_expired-IsWindow now [] = record { older = []; parts = refl; expired = tt; fresh = empty }
drop_expired-IsWindow now (t ∷ ts) = elim (Bool-cases (ltb (t + 60_000_000_000) now)) [
  | inl e ↦
      let rest = drop_expired-IsWindow now ts in
      rw (e, drop_expired)
        (record {
          older = t ∷ rest.older;
          parts = ap (λ us. t ∷ us) rest.parts;
          expired = (ground (arith, e), rest.expired);
          fresh = rest.fresh;
        })
  | inr e ↦
      rw (e, drop_expired)
        (record { older = []; parts = refl; expired = tt; fresh = starts t ts (ground (arith, e)) })
]

pub check_rate_limit-Limits :
    (tool : RegisteredTool) (now : ℕ)
    → Limits tool now (check_rate_limit tool now).0 (check_rate_limit tool now).1
unfolding check_rate_limit
check_rate_limit-Limits tool now =
    let recent = drop_expired now tool.call_timestamps in
    let window = drop_expired-IsWindow now tool.call_timestamps in
    elim (Bool-cases (leb tool.rate_limit_per_minute (length recent))) [
      | inl e ↦ rw e (refused recent window (ground (arith, e)))
      | inr e ↦ rw e (admitted recent window (ground (arith, e)))
    ]
