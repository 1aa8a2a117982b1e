-- ===== src/Api/Memories.antt =====
-- api.py: the endpoints on the long-term memory. The clock and the printing of times are
-- parameters.
use agent_orchestration_syst.Common.{ℕ, String, Bool, Option, none, List, map, ltb, ◌>>=◌, some}
use agent_orchestration_syst.Common.Tables.{order_by}
use agent_orchestration_syst.Memory.Models.{MemoryRecord}
use agent_orchestration_syst.Memory.LongTerm.{
  Collection, Search, consolidate, delete, delete_user_memories, list_user_memories,
}
use agent_orchestration_syst.Memory.LongTerm.Expiry.{Limits, Score, effective_importance, expire}

pub record MemoryDashboardEntry : Type 0 where
  pub id : String
  pub task : String
  pub approach_summary : String
  pub facts : List String
  pub preferences : List String
  pub tools_used : List String
  pub success : Bool
  pub importance : ℕ
  pub effective_importance : ℕ
  pub access_count : ℕ
  pub created_at : String
  pub last_accessed_at : String

-- The order of the sort, which is stable.
abbrev pub is_more_important : MemoryDashboardEntry → MemoryDashboardEntry → Bool
is_more_important e f = ltb f.effective_importance e.effective_importance

-- The number of deleted memories is told with the user's id.
pub record UserCount : Type 0 where
  pub user_id : String
  pub count : ℕ

module _ (isoformat : (time : ℕ) → String) (score : Score) (limits : Limits) where
  -- `_to_entry`
  unfoldable pub to_entry : (now : ℕ) → MemoryRecord → MemoryDashboardEntry
  unfolding effective_importance
  to_entry now r = record {
    id = r.id;
    task = r.task;
    approach_summary = r.approach_summary;
    facts = r.facts;
    preferences = r.preferences;
    tools_used = r.tools_used;
    success = r.success;
    importance = r.importance;
    effective_importance = effective_importance score limits now r;
    access_count = r.access_count;
    created_at = isoformat r.created_at;
    last_accessed_at = isoformat r.last_accessed_at;
  }

  -- `get_memory_dashboard`, with the time at which the entry of each record is made.
  unfoldable pub get_memory_dashboard :
      (now : MemoryRecord → ℕ) → (user_id : String) → Collection → List MemoryDashboardEntry
  unfolding to_entry order_by
  get_memory_dashboard now user_id c =
      order_by is_more_important (map (λ r. to_entry (now r) r) (list_user_memories user_id c))

-- `delete_user_memory`
unfoldable pub delete_user_memory : (user_id : String) → Collection → UserCount × Collection
unfolding delete_user_memories
delete_user_memory user_id c =
    let (deleted, left) = delete_user_memories user_id c in
    (record { user_id = user_id; count = deleted }, left)

-- `delete_single_memory`, which deletes by the memory's id alone.
unfoldable pub delete_single_memory :
    (user_id memory_id : String) → Collection → (String × String) × Collection
delete_single_memory user_id memory_id c = ((user_id, memory_id), delete memory_id c)

-- `consolidate_user_memory`
unfoldable pub consolidate_user_memory :
    (threshold : ℕ) → Search → (user_id : String) → Collection → Option (UserCount × Collection)
unfolding consolidate
consolidate_user_memory threshold nearest user_id c =
    consolidate threshold nearest user_id c >>= λ (merged, left).
    some (record { user_id = user_id; count = merged }, left)

-- `expire_stale_memory`
unfoldable pub expire_stale_memory : Score → Limits → (now : ℕ) → Collection → ℕ × Collection
unfolding expire
expire_stale_memory score limits now c = expire score limits now none c
