-- ===== src/Tools/Registry/Invoke.antt =====
-- tools/registry.py: what `ToolRegistry.invoke` and `register` do on every branch.
use agent_orchestration_syst.Common.{
  Bool, subst, ℕ, Option, is_some, ◌-◌, ◌≡◌, refl, String, true, false, none, some, List, [], ◌∷◌,
  ◌++◌, if◌then◌else◌, Bool-cases, Option-cases, inl, inr, sym, ap, ◌∙◌,
}
use mathlib.Core.List.{append-nil, append_assoc}
use agent_orchestration_syst.Tools.Registry.Limits.{Limits, check_rate_limit-Limits}
use agent_orchestration_syst.Common.Dict.{Dict, lookup, assign}
use agent_orchestration_syst.Schemas.{Json, SpecialistType, ToolCallLog}
use agent_orchestration_syst.Tools.Registry.{
  Outcome, returned, raised, Clock, RegisteredTool, Result, ok, raise, tool_not_found,
  tool_not_allowed, rate_limit_exceeded, ToolRegistry, allows, call_tool, check_rate_limit, invoke,
  log_of,
}

abbrev pub output_of : Outcome → Option String
output_of (returned text) = some text
output_of (raised text) = none

abbrev pub error_of : Outcome → Option String
error_of (returned text) = none
error_of (raised text) = some text

-- The log entry of a call that took some time: the call's output where the tool returned one, and
-- otherwise its error, with a success in the first case alone.
pub record IsLogOf (name : String) (kwargs : Dict Json) (latency : ℕ) (outcome : Outcome)
    (log : ToolCallLog) : Type 0 where
  pub tool_name : log.tool_name ≡ name
  pub inputs : log.inputs ≡ kwargs
  pub took : log.latency_ms ≡ latency
  pub success : log.success ≡ is_some (output_of outcome)
  pub output : log.output ≡ output_of outcome
  pub error : log.error ≡ error_of outcome

-- What an invocation did.
pub data Invoked (r : ToolRegistry) (clock : Clock) (name : String) (specialist : SpecialistType)
    (kwargs : Dict Json) : Result ToolCallLog → ToolRegistry → Type 0 where
  unknown :
      lookup name r.tools ≡ none → Invoked r clock name specialist kwargs (raise tool_not_found) r
  not_allowed :
      (tool : RegisteredTool)
      → lookup name r.tools ≡ some tool
      → allows specialist tool.allowed_specialists ≡ false
      → Invoked r clock name specialist kwargs (raise tool_not_allowed) r
  limited :
      (tool : RegisteredTool)
      → lookup name r.tools ≡ some tool
      → allows specialist tool.allowed_specialists ≡ true
      → (tool' : RegisteredTool) → Limits tool clock.now tool' false
      → Invoked r clock name specialist kwargs
          (raise rate_limit_exceeded)
          (record r { tools = assign name tool' r.tools })
  called :
      (tool : RegisteredTool)
      → lookup name r.tools ≡ some tool
      → allows specialist tool.allowed_specialists ≡ true
      → (tool' : RegisteredTool) → Limits tool clock.now tool' true
      → (log : ToolCallLog)
      → IsLogOf name kwargs (clock.stop - clock.start) (tool.func clock.start kwargs) log
      → Invoked r clock name specialist kwargs
          (ok log)
          (record { tools = assign name tool' r.tools; call_log = r.call_log ++ log ∷ [] })

log_of-IsLogOf :
    (name : String) (kwargs : Dict Json) (latency : ℕ) (outcome : Outcome)
    → IsLogOf name kwargs latency outcome (log_of name kwargs latency outcome)
unfolding log_of
log_of-IsLogOf name kwargs latency (returned text) = record {
  tool_name = refl;
  inputs = refl;
  took = refl;
  success = refl;
  output = refl;
  error = refl;
}
log_of-IsLogOf name kwargs latency (raised text) = record {
  tool_name = refl;
  inputs = refl;
  took = refl;
  success = refl;
  output = refl;
  error = refl;
}

call_tool-Invoked :
    (r : ToolRegistry) (clock : Clock) (name : String) (specialist : SpecialistType)
    (kwargs : Dict Json) (tool : RegisteredTool)
    → lookup name r.tools ≡ some tool
    → allows specialist tool.allowed_specialists ≡ true
    → Invoked r clock name specialist kwargs
        (call_tool r clock name kwargs tool).0
        (call_tool r clock name kwargs tool).1
unfolding call_tool
call_tool-Invoked r clock name specialist kwargs tool e a =
    elim (Bool-cases (check_rate_limit tool clock.now).1) [
      | inl b ↦ rw b (
          called tool e a (check_rate_limit tool clock.now).0 (limits true b) _
            (log_of-IsLogOf name kwargs (clock.stop - clock.start) (tool.func clock.start kwargs)))
      | inr b ↦ rw b (limited tool e a (check_rate_limit tool clock.now).0 (limits false b))
    ]
  where
    limits :
        (b : Bool)
        → (check_rate_limit tool clock.now).1 ≡ b
        → Limits tool clock.now (check_rate_limit tool clock.now).0 b
    limits b h =
        subst (Limits tool clock.now (check_rate_limit tool clock.now).0) h
          (check_rate_limit-Limits tool clock.now)

-- An invocation either refuses: an unknown tool and a specialist that is not allowed leave the
-- registry as it was, and a tool that has its limit of calls or more left, after those older than 60 seconds
-- are dropped from the left of its timestamps, loses those alone. Or the tool allows the specialist
-- and has fewer calls left, to which this one is added. Then it is called, and whether it returns or
-- raises, the one log entry that is returned is added to the log: the tool's name and arguments, the
-- time it took, and either a success with its output or a failure with its error.
pub invoke-Invoked :
    (r : ToolRegistry) (clock : Clock) (name : String) (specialist : SpecialistType)
    (kwargs : Dict Json)
    → Invoked r clock name specialist kwargs
        (invoke r clock name specialist kwargs).0
        (invoke r clock name specialist kwargs).1
unfolding invoke
invoke-Invoked r clock name specialist kwargs = elim (Option-cases (lookup name r.tools)) [
  | inl e ↦ rw (e, invoke) (unknown e)
  | inr (tool, e) ↦ rw (e, invoke) (known tool e)
]
  where
    known :
        (tool : RegisteredTool)
        → lookup name r.tools ≡ some tool
        → Invoked r clock name specialist kwargs
            (if allows specialist tool.allowed_specialists
              then call_tool r clock name kwargs tool
              else (raise tool_not_allowed, r)).0
            (if allows specialist tool.allowed_specialists
              then call_tool r clock name kwargs tool
              else (raise tool_not_allowed, r)).1
    known tool e = elim (Bool-cases (allows specialist tool.allowed_specialists)) [
      | inl a ↦ rw a (call_tool-Invoked r clock name specialist kwargs tool e a)
      | inr a ↦ rw a (not_allowed tool e a)
    ]

-- A call that a specialist makes.
pub record Request : Type 0 where
  pub clock : Clock
  pub tool_name : String
  pub specialist : SpecialistType
  pub kwargs : Dict Json

unfoldable pub invoke_many : ToolRegistry → List Request → List (Result ToolCallLog) × ToolRegistry
invoke_many r [] = ([], r)
invoke_many r (q ∷ qs) =
    let (answer, r') = invoke r q.clock q.tool_name q.specialist q.kwargs in
    let (answers, r'') = invoke_many r' qs in (answer ∷ answers, r'')

-- The logs that some answers carry.
unfoldable pub logs : List (Result ToolCallLog) → List ToolCallLog
logs [] = []
logs (ok log ∷ answers) = log ∷ logs answers
logs (raise error ∷ answers) = logs answers

pub Invoked-call_log :
    {r : ToolRegistry} {clock : Clock} {name : String} {specialist : SpecialistType}
    {kwargs : Dict Json} {answer : Result ToolCallLog} {r' : ToolRegistry}
    → Invoked r clock name specialist kwargs answer r'
    → r'.call_log ≡ r.call_log ++ logs (answer ∷ [])
unfolding logs
Invoked-call_log (unknown e) = sym (append-nil _)
Invoked-call_log (not_allowed tool e a) = sym (append-nil _)
Invoked-call_log (limited tool e a tool' b) = sym (append-nil _)
Invoked-call_log (called tool e a tool' b log f) = refl

logs-cons :
    (answer : Result ToolCallLog) (answers : List (Result ToolCallLog))
    → logs (answer ∷ answers) ≡ logs (answer ∷ []) ++ logs answers
unfolding logs
logs-cons (ok log) answers = refl
logs-cons (raise error) answers = refl

-- After any sequence of invocations the registry's log has grown by the logs returned to the
-- callers, in order: a refused call leaves no entry.
pub invoke_many-call_log :
    (r : ToolRegistry) (qs : List Request)
    → (invoke_many r qs).1.call_log ≡ r.call_log ++ logs (invoke_many r qs).0
unfolding invoke_many logs
invoke_many-call_log r [] = sym (append-nil r.call_log)
invoke_many-call_log r (q ∷ qs) =
    invoke_many-call_log r' qs
    ∙ ap (λ l. l ++ logs (invoke_many r' qs).0)
        (Invoked-call_log (invoke-Invoked r q.clock q.tool_name q.specialist q.kwargs))
    ∙ append_assoc r.call_log (logs (answer ∷ [])) (logs (invoke_many r' qs).0)
    ∙ ap (λ l. r.call_log ++ l) (sym (logs-cons answer (invoke_many r' qs).0))
  where
    answer : Result ToolCallLog
    answer = (invoke r q.clock q.tool_name q.specialist q.kwargs).0

    r' : ToolRegistry
    r' = (invoke r q.clock q.tool_name q.specialist q.kwargs).1
