-- ===== src/Schemas.antt =====
-- schemas.py: the structured outputs of the agents and the records that the graph passes on.
-- A float of the range 0.0 to 1.0 is a number of millionths. A duration is a number of clock
-- ticks. `dict` values that the code only hands on are `Json`.
mod Values
pub use Values.{Json}
use agent_orchestration_syst.Common.{ℕ, ◌+◌, String, Bool, Option, List, []}
use agent_orchestration_syst.Common.Dict.{Dict}

pub data SpecialistType : Type 0 where
  research data_analysis writing code_execution : SpecialistType

-- `SpecialistType.value`
unfoldable pub value : SpecialistType → String
value research = "research"
value data_analysis = "data_analysis"
value writing = "writing"
value code_execution = "code_execution"

pub record SubTask : Type 0 where
  pub id : String
  pub description : String
  pub specialist : SpecialistType
  pub required_inputs : List String
  pub depends_on : List String
  pub expected_output_format : String
  pub estimated_complexity : ℕ
  pub sensitive : Bool

pub record ExecutionPlan : Type 0 where
  pub goal : String
  pub subtasks : List SubTask
  pub confidence : ℕ
  pub reasoning : String

pub record TokenUsage : Type 0 where
  pub input_tokens : ℕ
  pub output_tokens : ℕ

unfoldable pub total_tokens : TokenUsage → ℕ
total_tokens u = u.input_tokens + u.output_tokens

pub record ToolCallLog : Type 0 where
  pub tool_name : String
  pub inputs : Dict Json
  pub output : Option String
  pub success : Bool
  pub latency_ms : ℕ
  pub error : Option String

pub record SubtaskResult : Type 0 where
  pub subtask_id : String
  pub specialist : SpecialistType
  pub success : Bool
  pub output : Option String
  pub confidence : ℕ
  pub tool_calls : List ToolCallLog
  pub error : Option String

pub record SpecialistOutput : Type 0 where
  pub output : String
  pub confidence : ℕ

pub record ReviewResult : Type 0 where
  pub approved : Bool
  pub score : ℕ
  pub feedback : String
  pub subtasks_to_redo : List String
  pub requires_human_review : Bool

pub data EscalationLevel : Type 0 where
  notify approve_action approve_plan take_over : EscalationLevel

-- `EscalationRequest.context`: the two dictionaries that the graph packs, one for a blocking
-- escalation and one for a notification.
pub record EscalationContext : Type 0 where
  pub task : String
  pub user_id : Option String
  pub plan : Option ExecutionPlan
  pub completed : Dict SubtaskResult
  pub review : Option ReviewResult
  pub memory_context : String
  pub stuck_subtask_ids : List String

pub data Context : Type 0 where
  packaged : EscalationContext → Context
  notification : (task : String) → ReviewResult → Context

pub record EscalationRequest : Type 0 where
  pub level : EscalationLevel
  pub reason : String
  pub context : Context

pub data DecisionAction : Type 0 where
  approve reject modify take_over : DecisionAction

pub record HumanDecision : Type 0 where
  pub action : DecisionAction
  pub feedback : Option String
  pub output : Option String

-- `escalation.context.get("stuck_subtask_ids", [])`
abbrev pub stuck_subtask_ids : Context → List String
stuck_subtask_ids (packaged c) = c.stuck_subtask_ids
stuck_subtask_ids (notification _ _) = []
