-- ===== src/Agents/Supervisor/Prompts.antt =====
-- agents/supervisor.py: under which system prompt an agent asks its model once it has synthesized.
use agent_orchestration_syst.Common.{
  String, Option, some, List, [], ◌∷◌, ◌≡◌, refl, ◌>>=◌, AtSome, AtSome-bind, AtSome-of, inl, inr,
  Option-cases,
}
use agent_orchestration_syst.Common.Dict.{Dict}
use agent_orchestration_syst.Schemas.{ExecutionPlan, SubtaskResult}
use agent_orchestration_syst.Agents.Base.{respond, structured}
use agent_orchestration_syst.Agents.Supervisor.{
  Model, SupervisorAgent, create_plan, planning_prompt, synthesis_system_prompt, synthesize,
}

-- What the graph asks of the agent.
pub data Call : Type 0 where
  plans : (task memory_context : String) → Call
  synthesizes : (task : String) → Dict SubtaskResult → Call

-- What a call answers.
pub data Answer : Type 0 where
  planned : Option ExecutionPlan → Answer
  synthesized : String → Answer

unfoldable pub call_once : Model → SupervisorAgent → Call → Option (Answer × SupervisorAgent)
call_once m a (plans task memory_context) =
    create_plan m a task memory_context >>= λ (plan, a'). some (planned plan, a')
call_once m a (synthesizes task results) =
    synthesize m a task results >>= λ (text, a'). some (synthesized text, a')

-- Some calls of the same agent, one after the other.
unfoldable pub call_all :
    Model → SupervisorAgent → List Call → Option (List Answer × SupervisorAgent)
call_all m a [] = some ([], a)
call_all m a (c ∷ calls) = call_once m a c >>= λ (answer, a').
    call_all m a' calls >>= λ (answers, a''). some (answer ∷ answers, a'')

-- The two models answer alike what is asked under the prompt of the synthesis.
pub record AgreeUnderSynthesis (m m' : Model) : Type 0 where
  pub plans_alike :
      (user : String)
      → m.planner.ask (record { system = synthesis_system_prompt; user = user })
        ≡ m'.planner.ask (record { system = synthesis_system_prompt; user = user })
  pub printed_alike : m.planner.model_dump_json ≡ m'.planner.model_dump_json
  pub texts_alike :
      (user : String)
      → m.writer (record { system = synthesis_system_prompt; user = user })
        ≡ m'.writer (record { system = synthesis_system_prompt; user = user })

-- The agent's prompt is that of the synthesis.
abbrev HasSynthesis : SupervisorAgent → Type 0
HasSynthesis a = a.system_prompt ≡ synthesis_system_prompt

call_once-HasSynthesis :
    (m : Model) (a : SupervisorAgent) (c : Call)
    → HasSynthesis a
    → AtSome (λ (r : Answer × SupervisorAgent). HasSynthesis r.1) (call_once m a c)
unfolding call_once create_plan synthesize structured respond
call_once-HasSynthesis m a (plans task memory_context) h =
    AtSome-bind _ (create_plan m a task memory_context) _ λ r e.
      AtSome-of (λ (r : Option ExecutionPlan × SupervisorAgent). HasSynthesis r.1) _
        (AtSome-bind _ (m.planner.ask _) _ (λ x f. h)) e
call_once-HasSynthesis m a (synthesizes task results) h =
    AtSome-bind _ (synthesize m a task results) _ λ r e.
      AtSome-of (λ (r : String × SupervisorAgent). HasSynthesis r.1) _
        (AtSome-bind _ (m.writer _) _ (λ x f. refl)) e

module _ (m m' : Model) (alike : AgreeUnderSynthesis m m') where
  call_once-alike :
      (a : SupervisorAgent) (c : Call) → HasSynthesis a → call_once m a c ≡ call_once m' a c
  unfolding call_once create_plan synthesize structured respond
  call_once-alike a (plans task memory_context) h =
      let user = planning_prompt task memory_context in
      rw (h, alike.plans_alike user, alike.printed_alike) refl
  call_once-alike a (synthesizes task results) h = rw (alike.texts_alike _) refl

  call_all-alike :
      (a : SupervisorAgent) (calls : List Call)
      → HasSynthesis a
      → call_all m a calls ≡ call_all m' a calls
  unfolding call_all
  call_all-alike a [] h = refl
  call_all-alike a (c ∷ calls) h = elim (Option-cases (call_once m' a c)) [
    | inl e ↦ rw (call_once-alike a c h, e) refl
    | inr (r, e) ↦
        let kept =
          AtSome-of (λ (r : Answer × SupervisorAgent). HasSynthesis r.1) (call_once m' a c)
            (call_once-HasSynthesis m' a c h) e in
        rw (call_once-alike a c h, e, call_all-alike r.1 calls kept) refl
  ]

-- Once an agent has synthesized, all it asks in later calls, its plans included, is under the prompt
-- of the synthesis: with two models that agree on what is asked under that prompt, whatever they
-- answer under the prompt for planning, any later calls give the same answers and the same agent.
pub call_all-after_synthesize :
    (first m m' : Model) (a a' : SupervisorAgent) (task text : String)
    (results : Dict SubtaskResult) (calls : List Call)
    → synthesize first a task results ≡ some (text, a')
    → AgreeUnderSynthesis m m'
    → call_all m a' calls ≡ call_all m' a' calls
unfolding synthesize respond
call_all-after_synthesize first m m' a a' task text results calls e alike =
    call_all-alike m m' alike a' calls (
      AtSome-of (λ (r : String × SupervisorAgent). HasSynthesis r.1)
        (synthesize first a task results) (AtSome-bind _ (first.writer _) _ (λ r f. refl)) e)
