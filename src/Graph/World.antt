-- ===== src/Graph/World.antt =====
-- What `build_graph` is given, and what one node gets from outside while it runs: the clock, the
-- agents' answers, the memories and the human's decision. An agent that raises answers `none`.
use agent_orchestration_syst.Common.{ℕ, String, Bool, Option, none, some, List, [], ◌∷◌}
use agent_orchestration_syst.Common.Dict.{Dict}
use agent_orchestration_syst.Config.{Settings}
use agent_orchestration_syst.Schemas.{
  EscalationRequest, ExecutionPlan, HumanDecision, ReviewResult, SpecialistType, SubTask,
  SubtaskResult, TokenUsage,
}
use agent_orchestration_syst.Memory.Models.{MemoryRecord}
use agent_orchestration_syst.Graph.State.{NodeLabel, UsageEntry}

-- Python's `str` of a counter and of a score, and `:.2f` of a score, which only fill texts for a reader.
pub record Format : Type 0 where
  pub number : ℕ → String
  pub score : ℕ → String
  pub two_digits : ℕ → String

-- The arguments of `build_graph`: whether an optional one is given, and the settings it reads.
pub record GraphConfig : Type 0 where
  pub settings : Settings
  pub format : Format
  pub working_memory : Bool
  pub long_term_memory : Bool
  pub memory_extractor : Bool
  pub use_celery : Bool

-- What an agent object holds after a call: its model and `last_prompt`, `last_response_text`
-- and `last_usage`.
pub record AgentCall : Type 0 where
  pub model_name : String
  pub last_prompt : Option String
  pub last_response_text : Option String
  pub last_usage : Option TokenUsage

pub record World : Type 0 where
  pub started_at : ℕ
  pub ended_at : ℕ
  pub uuid : String
  pub query : (task user_id : String) → List MemoryRecord
  pub create_plan : (task memory_context : String) → Option (ExecutionPlan × AgentCall)
  pub run :
      SpecialistType
      → SubTask
      → Dict SubtaskResult
      → Option String
      → Option (SubtaskResult × AgentCall)
  pub review : String → Dict SubtaskResult → Option (ReviewResult × AgentCall)
  pub synthesize : String → Dict SubtaskResult → Option (String × AgentCall)
  pub extract :
      (user_id task : String) → ExecutionPlan → Dict SubtaskResult → String → Option MemoryRecord
  pub decision : HumanDecision

-- What is written to working memory: the dump of a model, or a text.
pub data Saved : Type 0 where
  text : String → Saved
  plan_dump : ExecutionPlan → Saved
  result_dump : SubtaskResult → Saved
  review_dump : ReviewResult → Saved
  escalation_dump : EscalationRequest → Saved

-- The calls that a node makes of working memory and of long-term memory, in order.
pub data MemoryCall : Type 0 where
  save : (task_id field : String) → Saved → MemoryCall
  clear : (task_id : String) → MemoryCall
  add : MemoryRecord → MemoryCall

-- `_usage_entry`
unfoldable pub usage_entry : NodeLabel → AgentCall → List UsageEntry
usage_entry node agent = elim agent.last_usage [
  | none ↦ []
  | some u ↦ record { node = node; model = agent.model_name; tokens = u } ∷ []
]
