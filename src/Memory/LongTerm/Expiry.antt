-- ===== src/Memory/LongTerm/Expiry.antt =====
-- memory/long_term.py: `effective_importance` and `expire`. The floating point factors are
-- parameters, as natural numbers of some unit; the score is then a number of its square.
use agent_orchestration_syst.Common.{
  ℕ, ◌-◌, ◌*◌, String, Bool, ◌&&◌, Option, ltb, leb, if◌then◌else◌, keep, length, truthy, get_or,
}
use agent_orchestration_syst.Common.Dict.{keys}
use agent_orchestration_syst.Memory.Models.{MemoryRecord}
use agent_orchestration_syst.Memory.LongTerm.{Collection, delete_ids, owned}

-- `1 + math.log1p(access_count)` and `0.5 ** (age / half_life)`, and the number that stands for 1.
pub record Score : Type 0 where
  pub one : ℕ
  pub boost : (access_count : ℕ) → ℕ
  pub decay : (age half_life : ℕ) → ℕ

-- The attributes that `expire` reads. Spans of time are in the unit of the records' times.
pub record Limits : Type 0 where
  pub half_life : ℕ
  pub min_importance : ℕ
  pub min_age_before_expiry : ℕ

-- `effective_importance`. The difference of the times is 0 where `now` is earlier, as in the code.
unfoldable pub effective_importance : Score → Limits → (now : ℕ) → MemoryRecord → ℕ
effective_importance score limits now r =
    r.importance
    * score.boost r.access_count
    * score.decay (now - r.last_accessed_at) limits.half_life

-- The test of `expire`, for a record that was created at `now` or before.
unfoldable pub is_stale : Score → Limits → (now : ℕ) → MemoryRecord → Bool
unfolding effective_importance
is_stale score limits now r =
    leb limits.min_age_before_expiry (now - r.created_at)
    && ltb (effective_importance score limits now r) (limits.min_importance * score.one * score.one)

-- The records that `expire` looks at: those of a user, or all.
unfoldable pub candidates : (user_id : Option String) → Collection → Collection
unfolding owned
candidates user_id c = if truthy user_id then owned (get_or user_id "") c else c

-- `expire`: how many were deleted, and what is left.
unfoldable pub expire :
    Score → Limits → (now : ℕ) → (user_id : Option String) → Collection → ℕ × Collection
unfolding candidates is_stale delete_ids
expire score limits now user_id c =
    let to_delete = keys (
      keep (λ (e : String × MemoryRecord). is_stale score limits now e.1) (candidates user_id c)) in
    (length to_delete, delete_ids to_delete c)
