-- ===== src/Agents/Specialists/Calls.antt =====
-- agents/specialists.py: the tool calls that an attempt reports, against the registry's log.
use agent_orchestration_syst.Common.{
  ℕ, zero, suc, ◌≡◌, refl, String, Option, none, some, List, [], ◌∷◌, ◌++◌, ◌∙◌, sym, ap, length,
  inl, inr, ◌⊎◌, Option-cases, Sum-cases, List-cases, is_some, not,
}
use mathlib.Core.List.{append-nil, append_assoc}
use agent_orchestration_syst.Common.Dict.{Dict}
use agent_orchestration_syst.Schemas.{SpecialistType, SubTask, SubtaskResult, ToolCallLog}
use agent_orchestration_syst.Tools.Registry.{RegisteredTool, ToolRegistry}
use agent_orchestration_syst.Tools.Registry.Invoke.{invoke-Invoked, Invoked-call_log}
use agent_orchestration_syst.Agents.Session.{
  human, Outside, Session, count_call, ToolCall, max_tool_iterations,
}
use agent_orchestration_syst.Agents.ToolLoop.{
  Turn, settled, unsettled, aborted, call_tool_of, drop, find_tool, force_answer, iterate, run_call,
  run_calls, must_answer,
}
use agent_orchestration_syst.Agents.Specialists.{
  conclude, give_up, after_force, after_loop, run, SpecialistAgent, opening, prompt_of,
}
use agent_orchestration_syst.Agents.Specialists.Counted.{Reply-cases, Final-cases}

drop-length : (xs ys : List ToolCallLog) → drop (length xs) (xs ++ ys) ≡ ys
unfolding drop
drop-length [] ys = refl
drop-length (x ∷ xs) ys = drop-length xs ys

-- The log is what it was before the attempt, and then the calls that the attempt noted.
abbrev Logged : List ToolCallLog → Session → Type 0
Logged before s = s.registry.call_log ≡ before ++ s.tool_calls_made

grown-log :
    (before made log new log' : List ToolCallLog)
    → log' ≡ log ++ new
    → log ≡ before ++ made
    → log' ≡ before ++ (made ++ drop (length log) log')
grown-log before made log new log' e h =
    e
    ∙ ap (λ l. l ++ new) h
    ∙ append_assoc before made new
    ∙ ap (λ l. before ++ (made ++ l)) (sym (ap (drop (length log)) e ∙ drop-length log new))

call_tool_of-Logged :
    (o : Outside) (specialist : SpecialistType) (s : Session) (call : ToolCall) (t : RegisteredTool)
    (before : List ToolCallLog)
    → Logged before s
    → Logged before (call_tool_of o specialist s call t)
unfolding call_tool_of
call_tool_of-Logged o specialist s call t before h =
    elim (Sum-cases (o.check_args t.args_schema call.args)) [
      | inr (error, e) ↦ rw (e, call_tool_of) h
      | inl (kwargs, e) ↦
          let grown =
            Invoked-call_log
              (invoke-Invoked s.registry (o.clock s.calls) t.name specialist kwargs) in
          rw (e, call_tool_of) (grown-log before s.tool_calls_made s.registry.call_log _ _ grown h)
    ]

run_calls-Logged :
    (o : Outside) (specialist : SpecialistType) (lc_tools : List RegisteredTool) (s : Session)
    (calls : List ToolCall) (before : List ToolCallLog)
    → Logged before s
    → Logged before (run_calls o specialist lc_tools s calls)
unfolding run_calls run_call
run_calls-Logged o specialist lc_tools s [] before h = h
run_calls-Logged o specialist lc_tools s (call ∷ rest) before h =
    run_calls-Logged o specialist lc_tools (run_call o specialist lc_tools s call) rest before
      (run_call-Logged (Option-cases (find_tool call.name lc_tools)))
  where
    run_call-Logged :
        ((find_tool call.name lc_tools ≡ none)
          ⊎ ((t : RegisteredTool) × (find_tool call.name lc_tools ≡ some t)))
        → Logged before (run_call o specialist lc_tools s call)
    run_call-Logged (inl e) = rw (e, run_call) h
    run_call-Logged (inr (t, e)) =
        rw (e, run_call) (call_tool_of-Logged o specialist s call t before h)

abbrev LoggedTurn : List ToolCallLog → Turn → Type 0
LoggedTurn before (settled s) = Logged before s
LoggedTurn before (unsettled s) = Logged before s
LoggedTurn before (aborted error s) = Logged before s

iterate-LoggedTurn :
    (o : Outside) (specialist : SpecialistType) (lc_tools : List RegisteredTool) (n : ℕ)
    (s : Session) (before : List ToolCallLog)
    → Logged before s
    → LoggedTurn before (iterate o specialist lc_tools n s)
unfolding iterate count_call
iterate-LoggedTurn o specialist lc_tools zero s before h = h
iterate-LoggedTurn o specialist lc_tools (suc n) s before h =
    elim (Reply-cases (o.with_tools s.calls s.messages)) [
      | inr (error, e) ↦ rw (e, iterate) h
      | inl (message, e) ↦ elim (List-cases message.tool_calls) [
        | inl f ↦ rw (e, f, iterate) h
        | inr (call, rest, f) ↦
            rw (e, f, iterate)
              (iterate-LoggedTurn o specialist lc_tools n _ before
                (run_calls-Logged o specialist lc_tools _ (call ∷ rest) before h))
      ]
    ]

force_answer-LoggedTurn :
    (o : Outside) (s : Session) (before : List ToolCallLog)
    → Logged before s
    → LoggedTurn before (force_answer o s)
unfolding force_answer count_call
force_answer-LoggedTurn o s before h =
    elim (Reply-cases (o.without_tools s.calls (s.messages ++ human must_answer ∷ []))) [
      | inr (error, e) ↦ rw (e, force_answer) h
      | inl (message, e) ↦ rw (e, force_answer) h
    ]

-- What the result of an attempt says: it is of the subtask, its tool calls are those that the
-- attempt added to the registry's log, and it has an output if it succeeded and an error if not.
pub record Accounted (before : List ToolCallLog) (subtask : SubTask) (r : SubtaskResult × Session)
    : Type 0 where
  pub of_subtask : r.0.subtask_id ≡ subtask.id
  pub logged : r.1.registry.call_log ≡ before ++ r.0.tool_calls
  pub has_output : r.0.success ≡ is_some r.0.output
  pub has_error : is_some r.0.error ≡ not r.0.success

conclude-Accounted :
    (o : Outside) (subtask : SubTask) (specialist : SpecialistType) (before : List ToolCallLog)
    (s : Session)
    → Logged before s
    → Accounted before subtask (conclude o subtask specialist s)
unfolding conclude give_up count_call
conclude-Accounted o subtask specialist before s h =
    elim (Final-cases (o.structured s.calls s.messages)) [
      | inr (error, e) ↦
          rw (e, conclude)
            (record { of_subtask = refl; logged = h; has_output = refl; has_error = refl })
      | inl (usage, none, e) ↦
          rw (e, conclude)
            (record { of_subtask = refl; logged = h; has_output = refl; has_error = refl })
      | inl (usage, some output, e) ↦
          rw (e, conclude)
            (record { of_subtask = refl; logged = h; has_output = refl; has_error = refl })
    ]

after_force-Accounted :
    (o : Outside) (subtask : SubTask) (specialist : SpecialistType) (before : List ToolCallLog)
    (t : Turn)
    → LoggedTurn before t
    → Accounted before subtask (after_force o subtask specialist t)
unfolding after_force give_up
after_force-Accounted o subtask specialist before (settled s) h =
    conclude-Accounted o subtask specialist before s h
after_force-Accounted o subtask specialist before (unsettled s) h =
    conclude-Accounted o subtask specialist before s h
after_force-Accounted o subtask specialist before (aborted error s) h = record {
  of_subtask = refl;
  logged = h;
  has_output = refl;
  has_error = refl;
}

after_loop-Accounted :
    (o : Outside) (subtask : SubTask) (specialist : SpecialistType) (before : List ToolCallLog)
    (t : Turn)
    → LoggedTurn before t
    → Accounted before subtask (after_loop o subtask specialist t)
unfolding after_loop give_up
after_loop-Accounted o subtask specialist before (settled s) h =
    conclude-Accounted o subtask specialist before s h
after_loop-Accounted o subtask specialist before (unsettled s) h =
    after_force-Accounted o subtask specialist before (force_answer o s)
      (force_answer-LoggedTurn o s before h)
after_loop-Accounted o subtask specialist before (aborted error s) h = record {
  of_subtask = refl;
  logged = h;
  has_output = refl;
  has_error = refl;
}

-- Whatever the model, the tools and the checks of arguments do, an attempt gives a result of its
-- subtask, with an output and no error or with an error and no output, and the tool calls in the
-- result are, in order, the entries that the attempt added to the registry's log.
pub run-Accounted :
    (o : Outside) (agent : SpecialistAgent) (subtask : SubTask) (context : Dict SubtaskResult)
    (feedback : Option String) (registry : ToolRegistry)
    → Accounted registry.call_log subtask (run o agent subtask context feedback registry)
unfolding run
run-Accounted o agent subtask context feedback registry =
    after_loop-Accounted o subtask agent.specialist_type registry.call_log _ (
      iterate-LoggedTurn o agent.specialist_type agent.lc_tools max_tool_iterations
        (opening agent (prompt_of subtask context feedback) registry) registry.call_log
        (sym (append-nil registry.call_log)))
