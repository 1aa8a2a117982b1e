-- ===== src/Examples/Supervisor.antt =====
-- The theorem on agents/supervisor.py, applied to a model that repeats its system prompt.
use agent_orchestration_syst.Common.{
  ◌==◌, if◌then◌else◌, ◌∷◌, none, some, [], ◌≡◌, refl, concat, join,
}
use agent_orchestration_syst.Agents.Base.{respond, usage_of}
use agent_orchestration_syst.Agents.Supervisor.Prompts.{
  plans, synthesizes, AgreeUnderSynthesis, call_all, call_all-after_synthesize,
}
use agent_orchestration_syst.Agents.Supervisor.{
  Model, new_supervisor, output_lines, SupervisorAgent, synthesis_system_prompt, synthesize,
}

abbrev model : Model
model = record {
  planner = record { ask = λ _. some (none, none); model_dump_json = λ _. "{}" };
  writer = λ request. some (request.system, none);
}

abbrev supervisor : SupervisorAgent
supervisor = new_supervisor "gpt-5"

abbrev used : SupervisorAgent
used = record supervisor {
  system_prompt = synthesis_system_prompt;
  last_prompt = some "Original task:\ntask\n\nSubtask outputs:\n";
  last_response_text = some synthesis_system_prompt;
}

synthesized : synthesize model supervisor "task" [] ≡ some (synthesis_system_prompt, used)
unfolding synthesize output_lines concat join respond usage_of
synthesized = refl

-- A model that also makes a plan under the prompt for planning.
abbrev planner : Model
planner = record model {
  planner = record {
    ask = λ request. if request.system == synthesis_system_prompt then some (none, none) else none;
    model_dump_json = λ _. "{}";
  };
}

agree : AgreeUnderSynthesis model planner
agree = record { plans_alike = λ user. refl; printed_alike = refl; texts_alike = λ user. refl }

call_all-after_synthesize_example :
    call_all model used (plans "next" "" ∷ synthesizes "next" [] ∷ [])
    ≡ call_all planner used (plans "next" "" ∷ synthesizes "next" [] ∷ [])
call_all-after_synthesize_example =
    call_all-after_synthesize model model planner supervisor used "task" synthesis_system_prompt []
      (plans "next" "" ∷ synthesizes "next" [] ∷ []) synthesized agree
