-- ===== src/Examples/Agents.antt =====
-- The theorems on agents/specialists.py, applied to a model that calls a tool once and answers.
use agent_orchestration_syst.Common.{ℕ, zero, suc, false, none, some, [], ◌∷◌, inl}
use agent_orchestration_syst.Schemas.{SpecialistType}
use agent_orchestration_syst.Agents.Session.{AiMessage, Reply, answered, given, Outside}
use agent_orchestration_syst.Agents.Specialists.{SpecialistAgent, make_agent, run}
use agent_orchestration_syst.Agents.Specialists.Bounds.{Reported, run-Reported}
use agent_orchestration_syst.Agents.Specialists.Calls.{Accounted, run-Accounted}
use agent_orchestration_syst.Examples.Tools.{clock, registry}
use agent_orchestration_syst.Graph.Run.Samples.{subtask}

abbrev asks : AiMessage
asks = record {
  content = "";
  tool_calls = record { name = "run_code"; args = []; id = "c-1" } ∷ [];
  usage = some (record { input_tokens = 10; output_tokens = 2 });
}

abbrev answers : AiMessage
answers = record {
  content = "4";
  tool_calls = [];
  usage = some (record { input_tokens = 20; output_tokens = 3 });
}

abbrev model : ℕ → Reply
model zero = answered asks
model (suc _) = answered answers

abbrev outside : Outside
outside = record {
  with_tools = λ calls _. model calls;
  without_tools = λ _ _. answered answers;
  structured = λ _ _. given none (some (record { output = "4"; confidence = 900_000 }));
  check_args = λ _ args. inl args;
  clock = λ calls. clock calls;
  number = λ _. "n";
  none_has_no_output = "'NoneType' object has no attribute 'output'";
}

abbrev agent : SpecialistAgent
agent = make_agent SpecialistType.code_execution "You are the Code Execution specialist." registry

run-Reported_example :
    Reported outside 6 (run outside agent (subtask "st-1" [] false) [] none registry)
run-Reported_example = run-Reported outside agent (subtask "st-1" [] false) [] none registry

run-Accounted_example :
    Accounted []
      (subtask "st-1" [] false)
      (run outside agent (subtask "st-1" [] false) [] none registry)
run-Accounted_example = run-Accounted outside agent (subtask "st-1" [] false) [] none registry
