-- ===== src/Memory/Models.antt =====
-- memory/models.py. Times are numbers of clock ticks and `importance` is in millionths.
use agent_orchestration_syst.Common.{ℕ, String, Bool, List, ◌∷◌, ◌++◌, keep, not, ◌==◌, join}

pub record ExtractedMemory : Type 0 where
  pub approach_summary : String
  pub facts : List String
  pub preferences : List String
  pub importance : ℕ

pub record MemoryRecord : Type 0 where
  pub id : String
  pub user_id : String
  pub task : String
  pub approach_summary : String
  pub tools_used : List String
  pub facts : List String
  pub preferences : List String
  pub success : Bool
  pub importance : ℕ
  pub access_count : ℕ
  pub created_at : ℕ
  pub last_accessed_at : ℕ

-- `MemoryRecord.embedding_text`
unfoldable pub embedding_text : MemoryRecord → String
unfolding join
embedding_text r =
    join "\n" (keep (λ p. not (p == "")) (r.task ∷ r.approach_summary ∷ r.facts ++ r.preferences))
