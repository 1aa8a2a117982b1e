-- ===== src/Examples/Terminal.antt =====
-- Small runs of agents/base.py, memory/extractor.py, run.py on a terminal and tracing/recorder.py.
use agent_orchestration_syst.Common.{◌≡◌, refl, none, some, [], ◌∷◌, insert_text, sorted_set, strip}
use agent_orchestration_syst.Schemas.{DecisionAction}
use agent_orchestration_syst.Config.{default_settings}
use agent_orchestration_syst.Agents.Base.{get_llm, groq, drop_chars}
use agent_orchestration_syst.Runner.Terminal.{
  Ending, action_of, complete, is_word, prompt_cli_for_decision, run_at_terminal, terminal_loop,
}
use agent_orchestration_syst.Examples.Runner.{app, last_result}

provider_of_groq :
    get_llm default_settings "groq:openai/gpt-oss" 0
    ≡ some (record { provider = groq; model = "openai/gpt-oss"; temperature = 0; api_key = none })
unfolding get_llm drop_chars
provider_of_groq = refl

no_provider : get_llm default_settings "llama" 0 ≡ none
unfolding get_llm drop_chars
no_provider = refl

sorted_tools : sorted_set ("web" ∷ "db" ∷ "web" ∷ "api" ∷ []) ≡ "api" ∷ "db" ∷ "web" ∷ []
unfolding sorted_set insert_text
sorted_tools = refl

typed_action : action_of " Take_Over\n" ≡ some DecisionAction.take_over
unfolding action_of is_word strip
typed_action = refl

-- The first interruption is approved; the run ends with the result after that decision.
typed_run : run_at_terminal app ("approve" ∷ []) ≡ Ending.returned last_result
unfolding run_at_terminal terminal_loop prompt_cli_for_decision complete action_of is_word strip
typed_run = refl

misspelt_run : run_at_terminal app ("aprove" ∷ []) ≡ Ending.value_error
unfolding run_at_terminal terminal_loop prompt_cli_for_decision complete action_of is_word strip
misspelt_run = refl
