-- ===== src/Tools/Registry.antt =====
-- tools/registry.py: tools gated by specialist and by rate, with a log of the calls. Times are
-- readings of the monotonic clock in nanoseconds.
pub mod Limits
pub mod Recent
pub mod RateLimit
pub mod Window
pub mod Invoke
use agent_orchestration_syst.Common.{
  ℕ, ◌+◌, ◌-◌, String, Bool, true, false, none, some, List, [], ◌∷◌, ◌++◌, ◌==◌, ◌||◌, ltb, leb,
  if◌then◌else◌, length, is_some,
}
use agent_orchestration_syst.Common.Dict.{Dict, lookup, assign, values}
use agent_orchestration_syst.Schemas.{Json, SpecialistType, ToolCallLog, value}

-- What a call of a tool's function does: return a text or raise, with the exception's text.
pub data Outcome : Type 0 where
  returned : String → Outcome
  raised : String → Outcome

-- The function's answer may depend on when it is called. `call_timestamps` is the deque.
pub record RegisteredTool : Type 0 where
  pub name : String
  pub description : String
  pub func : (start : ℕ) → Dict Json → Outcome
  pub allowed_specialists : List SpecialistType
  pub args_schema : String
  pub rate_limit_per_minute : ℕ
  pub call_timestamps : List ℕ

abbrev pub minute : ℕ
minute = 60_000_000_000

-- The `while` loop that pops timestamps below `now - 60` from the left.
unfoldable pub drop_expired : (now : ℕ) → List ℕ → List ℕ
drop_expired now [] = []
drop_expired now (t ∷ ts) =
    let rest = drop_expired now ts in if ltb (t + minute) now then rest else t ∷ ts

-- `_check_rate_limit`: the tool afterwards, and whether the call goes on. The deque is shortened
-- also where the call is refused.
unfoldable pub check_rate_limit : RegisteredTool → (now : ℕ) → RegisteredTool × Bool
check_rate_limit tool now =
    let recent = drop_expired now tool.call_timestamps in
    if leb tool.rate_limit_per_minute (length recent)
    then (record tool { call_timestamps = recent }, false)
    else (record tool { call_timestamps = recent ++ now ∷ [] }, true)

pub record ToolRegistry : Type 0 where
  pub tools : Dict RegisteredTool
  pub call_log : List ToolCallLog

abbrev pub empty_registry : ToolRegistry
empty_registry = record { tools = []; call_log = [] }

-- The exceptions of the module, and the `ValueError` of `register`.
pub data ToolError : Type 0 where
  already_registered tool_not_found tool_not_allowed rate_limit_exceeded : ToolError

pub data Result {ℓ} (A : Type ℓ) : Type ℓ where
  ok : A → Result A
  raise : ToolError → Result A

-- `register`
unfoldable pub register :
    ToolRegistry
    → (name description : String) → ((start : ℕ) → Dict Json → Outcome)
    → List SpecialistType
    → (args_schema : String) → (rate_limit_per_minute : ℕ) → Result ToolRegistry
register r name description func allowed args_schema limit =
    if is_some (lookup name r.tools)
    then raise already_registered
    else ok (record r {
      tools =
          assign name
            (record {
              name = name;
              description = description;
              func = func;
              allowed_specialists = allowed;
              args_schema = args_schema;
              rate_limit_per_minute = limit;
              call_timestamps = [];
            })
            r.tools;
    })

-- `specialist in tool.allowed_specialists`
unfoldable pub allows : SpecialistType → List SpecialistType → Bool
unfolding value
allows specialist [] = false
allows specialist (s ∷ rest) = (value s == value specialist) || allows specialist rest

-- `list_tools_for`
unfoldable pub list_tools_from : SpecialistType → List RegisteredTool → List RegisteredTool
list_tools_from specialist [] = []
list_tools_from specialist (t ∷ ts) =
    let rest = list_tools_from specialist ts in
    if allows specialist t.allowed_specialists then t ∷ rest else rest

abbrev pub list_tools_for : ToolRegistry → SpecialistType → List RegisteredTool
list_tools_for r specialist = list_tools_from specialist (values r.tools)

-- The log entry of a call, successful or not.
unfoldable pub log_of : (name : String) → Dict Json → (latency : ℕ) → Outcome → ToolCallLog
log_of name kwargs latency (returned output) = record {
  tool_name = name;
  inputs = kwargs;
  output = some output;
  success = true;
  latency_ms = latency;
  error = none;
}
log_of name kwargs latency (raised error) = record {
  tool_name = name;
  inputs = kwargs;
  output = none;
  success = false;
  latency_ms = latency;
  error = some error;
}

-- The readings of the clock in one `invoke`: in the rate check, before and after the call.
pub record Clock : Type 0 where
  pub now : ℕ
  pub start : ℕ
  pub stop : ℕ

-- `invoke` after the tests on the tool.
unfoldable pub call_tool :
    ToolRegistry
    → Clock
    → (name : String) → Dict Json
    → RegisteredTool
    → Result ToolCallLog × ToolRegistry
unfolding check_rate_limit
call_tool r clock name kwargs tool =
    let (tool', admitted) = check_rate_limit tool clock.now in
    let r' = record r { tools = assign name tool' r.tools } in
    let log = log_of name kwargs (clock.stop - clock.start) (tool.func clock.start kwargs) in
    if admitted
    then (ok log, record r' { call_log = r.call_log ++ log ∷ [] })
    else (raise rate_limit_exceeded, r')

unfoldable pub invoke :
    ToolRegistry
    → Clock
    → (tool_name : String) → SpecialistType
    → Dict Json
    → Result ToolCallLog × ToolRegistry
unfolding call_tool
invoke r clock tool_name specialist kwargs = elim (lookup tool_name r.tools) [
  | none ↦ (raise tool_not_found, r)
  | some tool ↦
      if allows specialist tool.allowed_specialists
      then call_tool r clock tool_name kwargs tool
      else (raise tool_not_allowed, r)
]
