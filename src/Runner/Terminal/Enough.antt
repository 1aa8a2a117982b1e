-- ===== src/Runner/Terminal/Enough.antt =====
-- run.py: on a terminal the loop ends, and the graph goes on with what was typed.
use agent_orchestration_syst.Common.{
  Option-cases, inl, inr, ℕ, zero, suc, ◌<◌, ◌≤◌, ◌≡◌, ◌≢◌, refl, String, Option, none, some, List,
  [], ◌∷◌, ◌++◌, length, arith, subst,
}
use agent_orchestration_syst.Schemas.{DecisionAction, HumanDecision}
use agent_orchestration_syst.Runner.{App, InvokeResult, Payload}
use agent_orchestration_syst.Runner.Terminal.{
  action_of, decided, Ending, Typed, complete, prompt_cli_for_decision, run_at_terminal,
  terminal_loop,
}

-- A decision leaves no more lines than there were.
abbrev Shorter : (bound : ℕ) → Typed → Type 0
Shorter bound (decided d rest) = length rest ≤ bound
Shorter bound _ = Unit

complete-Shorter :
    (action : DecisionAction) (lines : List String) → Shorter (length lines) (complete action lines)
unfolding complete
complete-Shorter DecisionAction.approve lines = omega arith
complete-Shorter DecisionAction.reject lines = omega arith
complete-Shorter DecisionAction.modify [] = tt
complete-Shorter DecisionAction.modify (line ∷ lines) = omega arith
complete-Shorter DecisionAction.take_over [] = tt
complete-Shorter DecisionAction.take_over (line ∷ lines) = omega arith

prompt-Shorter :
    (line : String) (lines : List String)
    → Shorter (length lines) (prompt_cli_for_decision (line ∷ lines))
unfolding prompt_cli_for_decision
prompt-Shorter line lines =
    elim (action_of line)
      as (λ o.
        Shorter (length lines)
          (elim o [ none ↦ Typed.value_error | some action ↦ complete action lines ])) [
            | none ↦ tt
            | some action ↦ complete-Shorter action lines
          ]

prompt-shorter :
    (input : List String) {d : HumanDecision} {rest : List String}
    → prompt_cli_for_decision input ≡ decided d rest
    → length rest < length input
unfolding prompt_cli_for_decision
prompt-shorter [] e = ground (arith, e)
prompt-shorter (line ∷ lines) {d} {rest} e =
    let shorter = subst (Shorter (length lines)) e (prompt-Shorter line lines) in
    omega (arith, shorter)

-- The end of a turn, with the result that the graph then gives.
abbrev resumed : (fuel : ℕ) → App → List HumanDecision → List String → Option InvokeResult → Ending
resumed fuel app decisions rest none = Ending.graph_error
resumed fuel app decisions rest (some next) = terminal_loop fuel app decisions next rest

-- One turn of the loop.
abbrev turn : (fuel : ℕ) → App → List HumanDecision → InvokeResult → Option Payload → Typed → Ending
turn fuel app decisions result none typed = Ending.returned result
turn fuel app decisions result (some _) Typed.value_error = Ending.value_error
turn fuel app decisions result (some _) Typed.end_of_input = Ending.end_of_input
turn fuel app decisions result (some _) (decided d rest) =
    resumed fuel app (decisions ++ d ∷ []) rest (app (decisions ++ d ∷ []))

resumed-ends :
    (fuel : ℕ) (app : App) (decisions : List HumanDecision) (rest : List String)
    (o : Option InvokeResult)
    → ((next : InvokeResult) → terminal_loop fuel app decisions next rest ≢ Ending.out_of_fuel)
    → resumed fuel app decisions rest o ≢ Ending.out_of_fuel
resumed-ends fuel app decisions rest none h e = ground (arith, e)
resumed-ends fuel app decisions rest (some next) h e = h next e

turn-ends :
    (fuel : ℕ) (app : App) (decisions : List HumanDecision) (result : InvokeResult)
    (o : Option Payload) (t : Typed)
    → ((d : HumanDecision) (rest : List String) (next : InvokeResult)
        → t ≡ decided d rest
        → terminal_loop fuel app (decisions ++ d ∷ []) next rest ≢ Ending.out_of_fuel)
    → turn fuel app decisions result o t ≢ Ending.out_of_fuel
turn-ends fuel app decisions result none t h e = ground (arith, e)
turn-ends fuel app decisions result (some _) Typed.value_error h e = ground (arith, e)
turn-ends fuel app decisions result (some _) Typed.end_of_input h e = ground (arith, e)
turn-ends fuel app decisions result (some _) (decided d rest) h e =
    resumed-ends fuel app (decisions ++ d ∷ []) rest (app (decisions ++ d ∷ []))
      (λ next. h d rest next refl) e

terminal_loop-turn :
    (fuel : ℕ) (app : App) (decisions : List HumanDecision) (result : InvokeResult)
    (input : List String)
    → terminal_loop (suc fuel) app decisions result input
      ≡ turn fuel app decisions result result.interrupt (prompt_cli_for_decision input)
unfolding terminal_loop
terminal_loop-turn fuel app decisions result input = ground arith

-- With more fuel than there are lines the loop comes to an end.
terminal_loop-ends :
    (fuel : ℕ) (app : App) (decisions : List HumanDecision) (result : InvokeResult)
    (input : List String)
    → length input < fuel
    → terminal_loop fuel app decisions result input ≢ Ending.out_of_fuel
terminal_loop-ends zero app decisions result input h = ground (arith, h)
terminal_loop-ends (suc fuel) app decisions result input h =
    rw (terminal_loop-turn fuel app decisions result input) (
      turn-ends fuel app decisions result result.interrupt (prompt_cli_for_decision input)
        λ d rest next e.
          terminal_loop-ends fuel app (decisions ++ d ∷ []) next rest
            (omega (arith, h, prompt-shorter input e)))

-- What is typed at the prompts of a run whose resumptions do not raise: the decisions and the
-- result in the end.
pub data TypedAll (app : App)
    : List HumanDecision
      → InvokeResult
      → List String
      → List HumanDecision
      → InvokeResult
      → Type 0 where
  done :
      {decisions : List HumanDecision} {result : InvokeResult} {input : List String}
      → result.interrupt ≡ none
      → TypedAll app decisions result input decisions result
  more :
      {decisions : List HumanDecision} {result : InvokeResult} {input : List String}
      {all : List HumanDecision} {last : InvokeResult}
      → (payload : Payload) (d : HumanDecision) (rest : List String) (next : InvokeResult)
      → result.interrupt ≡ some payload
      → prompt_cli_for_decision input ≡ decided d rest
      → app (decisions ++ d ∷ []) ≡ some next
      → TypedAll app (decisions ++ d ∷ []) next rest all last
      → TypedAll app decisions result input all last

terminal_loop-TypedAll :
    (fuel : ℕ) (app : App) {decisions all : List HumanDecision} {result last : InvokeResult}
    {input : List String}
    → length input < fuel
    → app decisions ≡ some result
    → TypedAll app decisions result input all last
    → (terminal_loop fuel app decisions result input ≡ Ending.returned last) × (app all ≡ some last)
unfolding terminal_loop
terminal_loop-TypedAll zero app {input = input} h given t = ground (arith, h)
terminal_loop-TypedAll (suc fuel) app h given (done e) = (ground (arith, e), given)
terminal_loop-TypedAll (suc fuel) app {input = input} h given (more payload d rest next e p k t) =
    let (ends, last) =
      terminal_loop-TypedAll fuel app (omega (arith, h, prompt-shorter input p)) k t in
    (rw (e, p, k, terminal_loop) ends, last)

-- The number of lines is enough fuel for every run.
run_at_terminal-ends :
    (app : App) (input : List String) → run_at_terminal app input ≢ Ending.out_of_fuel
unfolding run_at_terminal
run_at_terminal-ends app input = elim (Option-cases (app [])) [
  | inl e ↦ rw (e, run_at_terminal) (λ k. ground (arith, k))
  | inr (result, e) ↦
      rw (e, run_at_terminal)
        (terminal_loop-ends (suc (length input)) app [] result input (omega arith))
]

-- When every prompt of a run is answered, the run ends with the result after the typed decisions.
run_at_terminal-TypedAll :
    (app : App) (input : List String) (all : List HumanDecision) (first last : InvokeResult)
    → app [] ≡ some first
    → TypedAll app [] first input all last
    → (run_at_terminal app input ≡ Ending.returned last) × (app all ≡ some last)
unfolding run_at_terminal
run_at_terminal-TypedAll app input all first last given t =
    let (ends, given') = terminal_loop-TypedAll (suc (length input)) app (omega arith) given t in
    (rw (given, run_at_terminal) ends, given')
