-- ===== src/Worker.antt =====
-- tasks.py: the Celery task, which builds a registry and an agent anew for one attempt at a subtask.
-- pydantic's validation of the data that was sent is a parameter.
use agent_orchestration_syst.Common.{
  String, Option, none, some, List, [], ◌∷◌, ◌>>=◌, ◌==◌, if◌then◌else◌,
}
use agent_orchestration_syst.Common.Dict.{Dict}
use agent_orchestration_syst.Schemas.{SpecialistType, SubTask, SubtaskResult, TokenUsage, value}
use agent_orchestration_syst.Config.{Settings}
use agent_orchestration_syst.Tools.Registry.{Result, ok, raise, empty_registry, ToolRegistry}
use agent_orchestration_syst.Tools.Builtin.Registered.{
  all_specialists, BuiltinTools, register_builtin_tools,
}
use agent_orchestration_syst.Agents.Base.{get_llm}
use agent_orchestration_syst.Agents.Session.{Outside}
use agent_orchestration_syst.Agents.Specialists.{make_agent, prompt_of, run}

-- `SpecialistType(text)`, which raises on another text.
unfoldable pub of_value : (text : String) → List SpecialistType → Option SpecialistType
unfolding value
of_value text [] = none
of_value text (t ∷ rest) = if value t == text then some t else of_value text rest

-- The validation of the data of some kind.
abbrev pub Validate : (D A : Type 0) → Type 0
Validate D A = D → Option A

unfoldable pub validate_all : {D A : Type 0} → Validate D A → Dict D → Option (Dict A)
validate_all validate [] = some []
validate_all validate ((id, d) ∷ rest) =
    validate d >>= λ a. validate_all validate rest >>= λ others. some ((id, a) ∷ others)

-- The dictionary that the task returns.
pub record WorkerAnswer : Type 0 where
  pub subtask_result : SubtaskResult
  pub model : String
  pub prompt : Option String
  pub response : Option String
  pub usage : Option TokenUsage

abbrev pub registry_of : Result ToolRegistry → Option ToolRegistry
registry_of (ok registry) = some registry
registry_of (raise _) = none

-- `run_specialist_task`. A value, a model or data that is not accepted raises.
unfoldable pub run_specialist_task :
    {D : Type 0}
    → Settings
    → Outside
    → (system_prompts : SpecialistType → String) → BuiltinTools
    → Validate D SubTask
    → Validate D SubtaskResult
    → (specialist_type_value model_name : String) → (subtask_data : D) → (context_data : Dict D)
    → (feedback : Option String) → Option WorkerAnswer
unfolding of_value validate_all register_builtin_tools get_llm run prompt_of
run_specialist_task settings o system_prompts tools validate_subtask validate_result
      specialist_type_value model_name subtask_data context_data feedback =
    of_value specialist_type_value all_specialists >>= λ specialist_type.
    validate_subtask subtask_data >>= λ subtask.
    validate_all validate_result context_data >>= λ context.
    registry_of (register_builtin_tools tools empty_registry) >>= λ registry.
    get_llm settings model_name 0 >>= λ llm.
    let agent = make_agent specialist_type (system_prompts specialist_type) registry in
    let (result, session) = run o agent subtask context feedback registry in
    some (record {
      subtask_result = result;
      model = model_name;
      prompt = some (prompt_of subtask context feedback);
      response = session.last_response_text;
      usage = session.last_usage;
    })
