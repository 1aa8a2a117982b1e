-- ===== src/Graph/Run/Samples.antt =====
-- Small runs of graph/build.py: a plan of two subtasks, agents that answer, and a human.
use agent_orchestration_syst.Common.{
  ℕ, zero, suc, ◌≡◌, String, Bool, true, false, Option, none, some, List, [], ◌∷◌, ◌>>=◌, inl, inr,
  ◌==◌, if◌then◌else◌, Option-cases, AtSome, AtSome-bind, AtSome-of,
}
use agent_orchestration_syst.Config.{default_settings}
use agent_orchestration_syst.Schemas.{
  DecisionAction, ExecutionPlan, HumanDecision, ReviewResult, SpecialistType, SubTask,
  SubtaskResult,
}
use agent_orchestration_syst.Memory.Models.{MemoryRecord}
use agent_orchestration_syst.Graph.World.{AgentCall, Format, GraphConfig, World}
use agent_orchestration_syst.Graph.Run.{Run, advance, Reach, here, next}

abbrev pub format : Format
format = record { number = λ _. "n"; score = λ _. "x"; two_digits = λ _. "x" }

abbrev pub config : GraphConfig
config = record {
  settings = default_settings;
  format = format;
  working_memory = true;
  long_term_memory = false;
  memory_extractor = false;
  use_celery = false;
}

abbrev pub subtask : String → List String → Bool → SubTask
subtask id depends_on sensitive = record {
  id = id;
  description = "do it";
  specialist = SpecialistType.writing;
  required_inputs = [];
  depends_on = depends_on;
  expected_output_format = "text";
  estimated_complexity = 1;
  sensitive = sensitive;
}

-- The second subtask waits for the first.
abbrev pub plan_of : Bool → ExecutionPlan
plan_of sensitive = record {
  goal = "goal";
  subtasks = subtask "st-1" [] sensitive ∷ subtask "st-2" ("st-1" ∷ []) false ∷ [];
  confidence = 900_000;
  reasoning = "";
}

abbrev pub call : AgentCall
call = record {
  model_name = "gpt-5";
  last_prompt = none;
  last_response_text = none;
  last_usage = none;
}

abbrev pub result : Bool → String → SubtaskResult
result success id = record {
  subtask_id = id;
  specialist = SpecialistType.writing;
  success = success;
  output = some "out";
  confidence = 900_000;
  tool_calls = [];
  error = none;
}

abbrev pub approval : ReviewResult
approval = record {
  approved = true;
  score = 900_000;
  feedback = "good";
  subtasks_to_redo = [];
  requires_human_review = false;
}

abbrev pub decide : DecisionAction → HumanDecision
decide action = record { action = action; feedback = some "guidance"; output = some "own" }

abbrev pub memory : MemoryRecord
memory = record {
  id = "m-1";
  user_id = "u";
  task = "task";
  approach_summary = "";
  tools_used = [];
  facts = [];
  preferences = [];
  success = true;
  importance = 500_000;
  access_count = 0;
  created_at = 0;
  last_accessed_at = 0;
}

-- Agents that plan, succeed with the subtasks that are not named, and approve.
abbrev pub world_of : (sensitive : Bool) → (failing : String) → DecisionAction → ℕ → World
world_of sensitive failing action _ = record {
  started_at = 1;
  ended_at = 2;
  uuid = "t-1";
  query = λ _ _. [];
  create_plan = λ _ _. some (plan_of sensitive, call);
  run = λ _ t _ _. some (result (if t.id == failing then false else true) t.id, call);
  review = λ _ _. some (approval, call);
  synthesize = λ _ _. some ("final", call);
  extract = λ _ _ _ _ _. some memory;
  decision = decide action;
}

-- `n` supersteps.
unfoldable pub advance_many : ℕ → GraphConfig → (ℕ → World) → Run → Option Run
advance_many zero c w r = some r
advance_many (suc n) c w r = advance_many n c w r >>= λ r'. advance c w r'

advance_many-AtSome :
    (n : ℕ) (c : GraphConfig) (w : ℕ → World) (r : Run) → AtSome (Reach c r) (advance_many n c w r)
unfolding advance_many
advance_many-AtSome zero c w r = here
advance_many-AtSome (suc n) c w r =
    AtSome-bind (Reach c r) (advance_many n c w r) _
      λ r' e. step r' (AtSome-of (Reach c r) (advance_many n c w r) (advance_many-AtSome n c w r) e)
  where
    step : (r' : Run) → Reach c r r' → AtSome (Reach c r) (advance c w r')
    step r' reach = elim (Option-cases (advance c w r')) [
      | inl e ↦ rw e tt
      | inr (r'', e) ↦ rw e (next reach w e)
    ]

-- What some supersteps lead to is reached.
pub advance_many-Reach :
    (n : ℕ) (c : GraphConfig) (w : ℕ → World) (r : Run) {r' : Run}
    → advance_many n c w r ≡ some r'
    → Reach c r r'
advance_many-Reach n c w r e =
    AtSome-of (Reach c r) (advance_many n c w r) (advance_many-AtSome n c w r) e
