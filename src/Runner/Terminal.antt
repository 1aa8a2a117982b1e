-- ===== src/Runner/Terminal.antt =====
-- run.py: `run_task` without an approval queue, where the decision is typed on the terminal. What is
-- printed is left out.
pub mod Enough
use agent_orchestration_syst.Common.{
  ℕ, zero, suc, ◌+◌, String, Bool, true, false, ◌&&◌, Option, none, some, List, [], ◌∷◌, ◌++◌, leb,
  if◌then◌else◌, length, strip,
}
use agent_orchestration_syst.Schemas.{DecisionAction, HumanDecision}
use agent_orchestration_syst.Runner.{App, InvokeResult}
use Prim.Native.Char.{code}

-- The code of a character after `lower`, as far as it may be a small letter: the Kelvin sign is the
-- one character outside ASCII whose lower case is such a letter alone.
abbrev pub lower_code : ℕ → ℕ
lower_code n =
    if leb b'A' n && leb n b'Z' then n + 32 else if leb 0x212a n && leb n 0x212a then b'k' else n

-- `text.lower() == word`, for a word of small letters and underscores.
unfoldable pub is_word : (word text : String) → Bool
is_word String.[] String.[] = true
is_word String.[] (String.◌∷◌ c text) = false
is_word (String.◌∷◌ w word) String.[] = false
is_word (String.◌∷◌ w word) (String.◌∷◌ c text) =
    (leb (code w) (lower_code (code c)) && leb (lower_code (code c)) (code w)) && is_word word text

-- `DecisionAction(line.strip().lower())`, which raises on another text.
unfoldable pub action_of : (line : String) → Option DecisionAction
unfolding is_word strip
action_of line =
    let text = strip line in
    if is_word "approve" text
    then some DecisionAction.approve
    else if is_word "reject" text
    then some DecisionAction.reject
    else if is_word "modify" text
    then some DecisionAction.modify
    else if is_word "take_over" text
    then some DecisionAction.take_over
    else none

-- What a prompt comes to: a decision with the lines that are left, a ValueError, or the end of the
-- input.
pub data Typed : Type 0 where
  decided : HumanDecision → (rest : List String) → Typed
  value_error end_of_input : Typed

abbrev plain : DecisionAction → HumanDecision
plain action = record { action = action; feedback = none; output = none }

-- The second line of a prompt, where the action asks for one.
unfoldable pub complete : DecisionAction → List String → Typed
unfolding strip
complete DecisionAction.approve lines = decided (plain DecisionAction.approve) lines
complete DecisionAction.reject lines = decided (plain DecisionAction.reject) lines
complete DecisionAction.modify [] = end_of_input
complete DecisionAction.modify (line ∷ lines) =
    decided (record (plain DecisionAction.modify) { feedback = some (strip line) }) lines
complete DecisionAction.take_over [] = end_of_input
complete DecisionAction.take_over (line ∷ lines) =
    decided (record (plain DecisionAction.take_over) { output = some (strip line) }) lines

-- `_prompt_cli_for_decision`
unfoldable pub prompt_cli_for_decision : (input : List String) → Typed
unfolding action_of complete
prompt_cli_for_decision [] = end_of_input
prompt_cli_for_decision (line ∷ lines) = elim (action_of line) [
  | none ↦ value_error
  | some action ↦ complete action lines
]

-- How `run_task` ends on a terminal.
pub data Ending : Type 0 where
  returned : InvokeResult → Ending
  graph_error value_error end_of_input out_of_fuel : Ending

-- The loop over the interruptions, with the result that it tests.
unfoldable pub terminal_loop :
    (fuel : ℕ) → App → List HumanDecision → InvokeResult → (input : List String) → Ending
unfolding prompt_cli_for_decision
terminal_loop zero app decisions result input = out_of_fuel
terminal_loop (suc fuel) app decisions result input = elim result.interrupt [
  | none ↦ returned result
  | some payload ↦ elim (prompt_cli_for_decision input) [
    | value_error ↦ Ending.value_error
    | end_of_input ↦ Ending.end_of_input
    | decided decision rest ↦ elim (app (decisions ++ decision ∷ [])) [
      | none ↦ graph_error
      | some next ↦ terminal_loop fuel app (decisions ++ decision ∷ []) next rest
    ]
  ]
]

-- `run_task` without a queue: each prompt takes a line, so that there are no more turns than lines.
unfoldable pub run_at_terminal : App → (input : List String) → Ending
unfolding terminal_loop
run_at_terminal app input = elim (app []) [
  | none ↦ graph_error
  | some result ↦ terminal_loop (suc (length input)) app [] result input
]
