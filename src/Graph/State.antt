-- ===== src/Graph/State.antt =====
-- graph/state.py: the state of a run, what a node writes, and how a write is merged.
pub mod Merge
use agent_orchestration_syst.Common.{ℕ, String, Bool, Option, none, some, List, [], ◌∷◌, ◌++◌}
use agent_orchestration_syst.Common.Dict.{Dict, assign, remove}
use agent_orchestration_syst.Schemas.{
  EscalationRequest, ExecutionPlan, HumanDecision, ReviewResult, SubtaskResult, ToolCallLog,
  DecisionAction, EscalationLevel, TokenUsage,
}

-- The texts that `escalation_source` takes.
pub data EscalationSource : Type 0 where
  plan_low_confidence plan_sensitive plan_requested : EscalationSource
  review_sensitive review_exhausted specialist_retry : EscalationSource
  review_low_score_notify : EscalationSource

pub data Status : Type 0 where
  completed rejected : Status

-- The nodes that `build_graph` adds.
pub data Node : Type 0 where
  intake plan_task route_batch run_specialist review apply_review_feedback notify_human : Node
  synthesize deliver reject_task human_escalation apply_human_decision : Node

-- The text that a trace event carries as its node.
pub data NodeLabel : Type 0 where
  of_node : Node → NodeLabel
  run_specialist_of : (subtask_id : String) → NodeLabel

pub data EventStatus : Type 0 where
  success failure warning escalated : EventStatus

pub record UsageEntry : Type 0 where
  pub node : NodeLabel
  pub model : String
  pub tokens : TokenUsage

-- The `attributes` of a trace event, a constructor for each node that gives some.
pub data Attributes : Type 0 where
  nothing : Attributes
  memory_hits : ℕ → Attributes
  planned :
      (confidence subtask_count : ℕ) (reasoning : String) (sensitive : Bool)
      (prompt response : Option String)
      → Attributes
  ran :
      (subtask_id : String) (output error : Option String) (retried_with_feedback : Bool)
      (tool_calls : List ToolCallLog) (prompt response : Option String) (executed_via : String)
      → Attributes
  reviewed : ReviewResult → (prompt response : Option String) → Attributes
  redo_ids : List String → Attributes
  reason : String → Attributes
  synthesized : (final_output_preview : String) (prompt response : Option String) → Attributes
  escalated_to :
      (level : EscalationLevel) (reason : String) (source : EscalationSource)
      (decision : DecisionAction)
      → Attributes
  decided :
      (action : DecisionAction) (source : EscalationSource) (feedback output : Option String)
      → Attributes

-- One entry of `trace_events`. `agent` is the text of the source.
pub record TraceEvent : Type 0 where
  pub node : NodeLabel
  pub agent : String
  pub status : EventStatus
  pub started_at : ℕ
  pub ended_at : ℕ
  pub attributes : Attributes
  pub usage : List UsageEntry

-- A key that the source reads by `.get` and that may be absent is an `Option`; an absent
-- dictionary, list, flag or counter is read as empty, false or 0, and is so here.
pub record OrchestratorState : Type 0 where
  pub task : String
  pub user_id : Option String
  pub task_id : Option String
  pub memory_context : String
  pub require_human_approval : Bool
  pub plan : Option ExecutionPlan
  pub completed : Dict SubtaskResult
  pub retry_counts : Dict ℕ
  pub subtask_feedback : Dict String
  pub review : Option ReviewResult
  pub review_cycles : ℕ
  pub status : Option Status
  pub escalation : Option EscalationRequest
  pub escalation_source : Option EscalationSource
  pub human_decision : Option HumanDecision
  pub final_output : Option String
  pub errors : List String
  pub trace_events : List TraceEvent

-- `_merge_optional_dict`: the right dictionary's entries in turn, where `None` deletes.
unfoldable pub merge_optional_dict {ℓ} : {V : Type ℓ} → Dict V → Dict (Option V) → Dict V
merge_optional_dict left [] = left
merge_optional_dict left ((k, none) ∷ right) = merge_optional_dict (remove k left) right
merge_optional_dict left ((k, some v) ∷ right) = merge_optional_dict (assign k v left) right

-- What a node returns: `none`, and an empty list or dictionary, where it writes no such key.
pub record Update : Type 0 where
  pub task_id : Option String
  pub user_id : Option String
  pub memory_context : Option String
  pub plan : Option ExecutionPlan
  pub completed : Dict (Option SubtaskResult)
  pub retry_counts : Dict (Option ℕ)
  pub subtask_feedback : Dict (Option String)
  pub review : Option ReviewResult
  pub review_cycles : Option ℕ
  pub status : Option Status
  pub escalation : Option EscalationRequest
  pub escalation_source : Option EscalationSource
  pub human_decision : Option HumanDecision
  pub final_output : Option String
  pub trace_events : List TraceEvent

abbrev pub no_update : Update
no_update = record {
  task_id = none;
  user_id = none;
  memory_context = none;
  plan = none;
  completed = [];
  retry_counts = [];
  subtask_feedback = [];
  review = none;
  review_cycles = none;
  status = none;
  escalation = none;
  escalation_source = none;
  human_decision = none;
  final_output = none;
  trace_events = [];
}

-- The default reducer: a key that is written is overwritten.
abbrev pub overwrite {ℓ} : {A : Type ℓ} → A → Option A → A
overwrite old none = old
overwrite old (some new) = new

abbrev pub overwrite_some {ℓ} : {A : Type ℓ} → Option A → Option A → Option A
overwrite_some old none = old
overwrite_some old (some new) = some new

-- A node's update, merged into the state by the reducer that each key is annotated with.
unfoldable pub apply_update : OrchestratorState → Update → OrchestratorState
apply_update s u = record s {
  task_id = overwrite_some s.task_id u.task_id;
  user_id = overwrite_some s.user_id u.user_id;
  memory_context = overwrite s.memory_context u.memory_context;
  plan = overwrite_some s.plan u.plan;
  completed = merge_optional_dict s.completed u.completed;
  retry_counts = merge_optional_dict s.retry_counts u.retry_counts;
  subtask_feedback = merge_optional_dict s.subtask_feedback u.subtask_feedback;
  review = overwrite_some s.review u.review;
  review_cycles = overwrite s.review_cycles u.review_cycles;
  status = overwrite_some s.status u.status;
  escalation = overwrite_some s.escalation u.escalation;
  escalation_source = overwrite_some s.escalation_source u.escalation_source;
  human_decision = overwrite_some s.human_decision u.human_decision;
  final_output = overwrite_some s.final_output u.final_output;
  trace_events = s.trace_events ++ u.trace_events;
}
