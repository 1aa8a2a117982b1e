-- ===== src/Examples/Tools.antt =====
-- The theorems on tools/registry.py, applied to a registry of one tool.
use agent_orchestration_syst.Common.{ℕ, ◌≡◌, ◌≤◌, refl, List, [], ◌∷◌, ◌++◌, arith}
use agent_orchestration_syst.Schemas.{SpecialistType}
use agent_orchestration_syst.Tools.Registry.{Clock, RegisteredTool, ToolRegistry, returned, invoke}
use agent_orchestration_syst.Tools.Registry.RateLimit.{admissions, answers, answers-admissions}
use agent_orchestration_syst.Tools.Registry.Window.{admitted, count_within, every_minute_limited}
use agent_orchestration_syst.Tools.Registry.Invoke.{
  Invoked, invoke-Invoked, Request, invoke_many, invoke_many-call_log, logs,
}

abbrev tool : RegisteredTool
tool = record {
  name = "run_code";
  description = "runs code";
  func = λ _ _. returned "4";
  allowed_specialists = SpecialistType.code_execution ∷ [];
  args_schema = "RunCodeArgs";
  rate_limit_per_minute = 2;
  call_timestamps = [];
}

abbrev pub registry : ToolRegistry
registry = record { tools = ("run_code", tool) ∷ []; call_log = [] }

abbrev pub clock : ℕ → Clock
clock now = record { now = now; start = now; stop = now }

-- Three calls within a minute, and one after it.
abbrev times : List ℕ
times = 1 ∷ 2 ∷ 3 ∷ 70_000_000_000 ∷ []

answers-admissions_example : answers tool times ≡ admissions 2 [] times
answers-admissions_example = answers-admissions tool times refl (
  (omega arith, (omega arith, (omega arith, tt))),
  ((omega arith, (omega arith, tt)), ((omega arith, tt), (tt, tt))),
)

every_minute_limited_example : count_within 1 (admitted (answers tool times) times) ≤ 2
every_minute_limited_example = every_minute_limited tool times 1 refl (
  (omega arith, (omega arith, (omega arith, tt))),
  ((omega arith, (omega arith, tt)), ((omega arith, tt), (tt, tt))),
)

invoke-Invoked_example :
    Invoked registry
      (clock 1)
      "run_code"
      SpecialistType.code_execution
      []
      (invoke registry (clock 1) "run_code" SpecialistType.code_execution []).0
      (invoke registry (clock 1) "run_code" SpecialistType.code_execution []).1
invoke-Invoked_example =
    invoke-Invoked registry (clock 1) "run_code" SpecialistType.code_execution []

-- One call that is allowed, and one that is not.
abbrev requests : List Request
requests =
    record {
      clock = clock 1;
      tool_name = "run_code";
      specialist = SpecialistType.code_execution;
      kwargs = [];
    }
    ∷ record {
      clock = clock 2;
      tool_name = "run_code";
      specialist = SpecialistType.writing;
      kwargs = [];
    }
    ∷ []

invoke_many-call_log_example :
    (invoke_many registry requests).1.call_log ≡ [] ++ logs (invoke_many registry requests).0
invoke_many-call_log_example = invoke_many-call_log registry requests
