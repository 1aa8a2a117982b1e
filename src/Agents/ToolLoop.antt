-- ===== src/Agents/ToolLoop.antt =====
-- agents/specialists.py: the loop of model and tool calls. The registry's log is that of one
-- thread: specialists that run at once share it, which is not modelled.
use agent_orchestration_syst.Common.{
  ℕ, zero, suc, String, Option, none, some, List, [], ◌∷◌, ◌++◌, ◌==◌, inl, inr, if◌then◌else◌,
  length, concat, or_text,
}
use agent_orchestration_syst.Schemas.{SpecialistType, ToolCallLog, value}
use agent_orchestration_syst.Tools.Registry.{
  RegisteredTool, Result, ok, raise, ToolError, already_registered, tool_not_found,
  tool_not_allowed, rate_limit_exceeded, invoke,
}
use agent_orchestration_syst.Agents.Session.{
  ToolCall, human, ai, tool, answered, failed, Outside, Session, count_call, append,
}

-- The text of an exception of the registry.
unfoldable pub describe : Outside → ToolError → RegisteredTool → SpecialistType → String
unfolding value
describe o tool_not_found t specialist = concat ("No such tool: '" ∷ t.name ∷ "'." ∷ [])
describe o tool_not_allowed t specialist =
    concat ("Specialist '" ∷ value specialist ∷ "' may not call tool '" ∷ t.name ∷ "'." ∷ [])
describe o rate_limit_exceeded t specialist =
    concat
      ("Tool '" ∷ t.name ∷ "' exceeded " ∷ o.number t.rate_limit_per_minute ∷ " calls/minute." ∷ [])
describe o already_registered t specialist =
    concat ("Tool '" ∷ t.name ∷ "' is already registered." ∷ [])

-- `_run` of `_make_runner`, and the text of a call that raises.
unfoldable pub answer_of : Outside → RegisteredTool → SpecialistType → Result ToolCallLog → String
unfolding describe
answer_of o t specialist (raise e) = concat ("ERROR: " ∷ describe o e t specialist ∷ [])
answer_of o t specialist (ok log) =
    if log.success
    then or_text log.output ""
    else concat ("ERROR: " ∷ or_text log.error (concat ("Tool '" ∷ t.name ∷ "' failed." ∷ [])) ∷ [])

-- `next((t for t in self._lc_tools if t.name == call["name"]), None)`
unfoldable pub find_tool : String → List RegisteredTool → Option RegisteredTool
find_tool name [] = none
find_tool name (t ∷ ts) = if t.name == name then some t else find_tool name ts

-- `xs[n:]`
unfoldable pub drop : {A : Type 0} → ℕ → List A → List A
drop zero xs = xs
drop (suc n) [] = []
drop (suc n) (x ∷ xs) = drop n xs

-- A tool call of a tool that the agent has.
unfoldable pub call_tool_of :
    Outside → SpecialistType → Session → ToolCall → RegisteredTool → Session
call_tool_of o specialist s call t = elim (o.check_args t.args_schema call.args) [
  | inr error ↦ append (tool (concat ("ERROR: " ∷ error ∷ [])) call.id) s
  | inl kwargs ↦
      let (answer, registry) = invoke s.registry (o.clock s.calls) t.name specialist kwargs in
      append (tool (answer_of o t specialist answer) call.id) (record s {
        registry = registry;
        tool_calls_made = s.tool_calls_made ++ drop (length s.registry.call_log) registry.call_log;
      })
]

-- One turn of the inner loop: a name that no tool has is told to the model.
unfoldable pub run_call :
    Outside → SpecialistType → List RegisteredTool → Session → ToolCall → Session
unfolding call_tool_of
run_call o specialist lc_tools s call = elim (find_tool call.name lc_tools) [
  | none ↦ append (tool (concat ("ERROR: no such tool '" ∷ call.name ∷ "'." ∷ [])) call.id) s
  | some t ↦ call_tool_of o specialist s call t
]

unfoldable pub run_calls :
    Outside → SpecialistType → List RegisteredTool → Session → List ToolCall → Session
run_calls o specialist lc_tools s [] = s
run_calls o specialist lc_tools s (call ∷ rest) =
    run_calls o specialist lc_tools (run_call o specialist lc_tools s call) rest

-- How the loop ends: with an answer, without one, or with an exception.
pub data Turn : Type 0 where
  settled : Session → Turn
  unsettled : Session → Turn
  aborted : String → Session → Turn

-- The outer loop.
unfoldable pub iterate : Outside → SpecialistType → List RegisteredTool → ℕ → Session → Turn
iterate o specialist lc_tools zero s = unsettled s
iterate o specialist lc_tools (suc n) s = elim (o.with_tools s.calls s.messages) [
  | failed error ↦ aborted error (record s { calls = suc s.calls })
  | answered message ↦
      let heard = append (ai message) (count_call message.usage s) in
      elim message.tool_calls [
        | [] ↦ settled heard
        | call ∷ rest ↦
            iterate o specialist lc_tools n (run_calls o specialist lc_tools heard (call ∷ rest))
      ]
]

-- The text of the forced turn after the loop's `else`.
abbrev pub must_answer : String
must_answer =
    "You must answer now, using only what you've already gathered above -- no more tool calls are available. If you couldn't find the specific information requested, give your best answer from general knowledge and say so plainly."

unfoldable pub force_answer : Outside → Session → Turn
force_answer o s =
    let asked = append (human must_answer) s in
    elim (o.without_tools asked.calls asked.messages) [
      | failed error ↦ aborted error (record asked { calls = suc asked.calls })
      | answered message ↦ settled (append (ai message) (count_call message.usage asked))
    ]
