-- ===== src/Api/Traces.antt =====
-- api.py: the endpoints on the traces and their replay. `_jsonable` is left out: a row, a
-- checkpoint's values and a result stand for their JSON.
use agent_orchestration_syst.Common.{
  ℕ, String, Bool, Option, none, some, List, [], ◌∷◌, ◌==◌, if◌then◌else◌,
}
use agent_orchestration_syst.Tracing.Store.{SpanRecord, TaskRecord, TraceStore, get_task}
use agent_orchestration_syst.Tracing.Dashboards.{get_spans, list_tasks}
use agent_orchestration_syst.Tracing.Replay.{
  CheckpointSummary, Engine, list_checkpoints, replay_from_checkpoint,
}
use agent_orchestration_syst.Api.{success, not_found, Response}

-- `list_traces`
abbrev pub list_traces : TraceStore → (limit : ℕ) → (user_id : Option String) → List TaskRecord
list_traces store limit user_id = list_tasks store limit user_id

pub record Trace : Type 0 where
  pub task : TaskRecord
  pub spans : List SpanRecord

-- `get_trace`
unfoldable pub get_trace : TraceStore → (task_id : String) → Response Trace
get_trace store task_id = elim (get_task store task_id) [
  | none ↦ not_found
  | some task ↦ success (record { task = task; spans = get_spans store task_id })
]

-- `next((c for c in checkpoints if c.checkpoint_id == checkpoint_id), None)`
unfoldable pub find_checkpoint :
    {C U : Type 0}
    → (checkpoint_id : String) → List (CheckpointSummary C U)
    → Option (CheckpointSummary C U)
find_checkpoint checkpoint_id [] = none
find_checkpoint checkpoint_id (c ∷ rest) =
    if c.checkpoint_id == checkpoint_id then some c else find_checkpoint checkpoint_id rest

-- The answer of a replay.
pub record Replayed (R : Type 0) : Type 0 where
  pub interrupted : Bool
  pub state : R

module _ {G C U R : Type 0} (engine : Engine G C U R) where
  -- `get_checkpoints`
  unfoldable pub get_checkpoints : G → (task_id : String) → Response (List (CheckpointSummary C U))
  unfolding list_checkpoints
  get_checkpoints g task_id = elim (list_checkpoints engine g task_id) [
    | [] ↦ not_found
    | c ∷ rest ↦ success (c ∷ rest)
  ]

  -- `replay_task`, with the test for an interrupt in a result, and the result without it.
  unfoldable pub replay_task :
      (has_interrupt : R → Bool)
      → (without_interrupt : R → R) → G
      → (task_id checkpoint_id : String) → (state_update : U) → Response (Replayed R) × G
  unfolding list_checkpoints find_checkpoint replay_from_checkpoint
  replay_task has_interrupt without_interrupt g task_id checkpoint_id state_update =
      elim (find_checkpoint checkpoint_id (list_checkpoints engine g task_id)) [
        | none ↦ (not_found, g)
        | some checkpoint ↦
            let (result, g') = replay_from_checkpoint engine g checkpoint state_update in
            (
              success
                  (record { interrupted = has_interrupt result; state = without_interrupt result }),
              g',
            )
      ]
