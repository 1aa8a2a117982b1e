-- ===== src/Tracing/Dashboards/Rows.antt =====
-- tracing/store.py: what one row of a dashboard tells, without the GROUP BY that makes it.
use agent_orchestration_syst.Common.{
  ℕ, ◌+◌, ◌*◌, ◌≤◌, ◌<◌, ◌≡◌, refl, String, Bool, true, not, ◌&&◌, Option, none, some, List, [],
  ◌∷◌, ◌==◌, leb, ltb, length, get_or, is_some, keep, arith, eq_iff, eq_refl,
}
use agent_orchestration_syst.Common.Tables.{sum_of}
use agent_orchestration_syst.Common.Tables.Groups.{IsEquality}
use agent_orchestration_syst.Tracing.Store.{SpanRecord, TaskRecord, TraceStore}
use agent_orchestration_syst.Tracing.Dashboards.{
  AgentCost, ToolUsage, Trend, TypeCost, day_of, finished_tasks, is_escalated, is_success, same_day,
  same_type, tool_spans,
}

-- The task has the type, or none where none is given.
abbrev pub is_of_type : Option String → TaskRecord → Bool
is_of_type none t = not (is_some t.task_type)
is_of_type (some name) t = is_some t.task_type && name == get_or t.task_type ""

-- The finished tasks of a type: NULL is shown as "unknown".
pub record IsTypeRow (store : TraceStore) (r : TypeCost) : Type 0 where
  pub of_type : Option String
  pub shown : r.task_type ≡ get_or of_type "unknown"
  pub counted : r.task_count ≡ length (keep (is_of_type of_type) (finished_tasks store))
  pub summed :
      r.total_cost ≡ sum_of (λ t. t.total_cost) (keep (is_of_type of_type) (finished_tasks store))
  pub averaged : r.avg_cost ≡ record { numerator = r.total_cost; denominator = r.task_count }
  pub some_tasks : 0 < r.task_count

-- The spans of an agent.
abbrev pub spans_of : (agent : String) → TraceStore → List SpanRecord
spans_of agent store = keep (λ (s : SpanRecord). agent == s.agent) store.spans

pub record IsAgentRow (store : TraceStore) (r : AgentCost) : Type 0 where
  pub counted : r.call_count ≡ length (spans_of r.agent store)
  pub cost : r.total_cost ≡ sum_of (λ s. s.cost) (spans_of r.agent store)
  pub inputs : r.total_input_tokens ≡ sum_of (λ s. s.input_tokens) (spans_of r.agent store)
  pub outputs : r.total_output_tokens ≡ sum_of (λ s. s.output_tokens) (spans_of r.agent store)
  pub latency : r.avg_latency ≡ record {
    numerator = sum_of (λ s. s.latency) (spans_of r.agent store);
    denominator = r.call_count;
  }
  pub some_calls : 0 < r.call_count

-- The calls of a tool.
abbrev pub calls_of : (tool_name : String) → TraceStore → List SpanRecord
calls_of tool_name store =
    keep (λ (s : SpanRecord). tool_name == get_or s.tool_name "") (tool_spans store)

pub record IsToolRow (store : TraceStore) (r : ToolUsage) : Type 0 where
  pub counted : r.call_count ≡ length (calls_of r.tool_name store)
  pub succeeded : r.success_count ≡ sum_of is_success (calls_of r.tool_name store)
  pub rate : r.success_rate ≡ record { numerator = r.success_count; denominator = r.call_count }
  pub latency : r.avg_latency ≡ record {
    numerator = sum_of (λ s. s.latency) (calls_of r.tool_name store);
    denominator = r.call_count;
  }
  pub at_most : r.success_count ≤ r.call_count
  pub some_calls : 0 < r.call_count

-- The task was started on the day, which begins at a multiple of the nanoseconds of a day.
abbrev pub is_on : (day : ℕ) → TaskRecord → Bool
is_on day t =
    leb (day * 86_400_000_000_000) t.started_at
    && ltb t.started_at (day * 86_400_000_000_000 + 86_400_000_000_000)

pub record IsDayRow (store : TraceStore) (r : Trend) : Type 0 where
  pub counted : r.task_count ≡ length (keep (is_on r.day) (finished_tasks store))
  pub escalated :
      r.escalated_count ≡ sum_of is_escalated (keep (is_on r.day) (finished_tasks store))
  pub rate :
      r.escalation_rate ≡ record { numerator = r.escalated_count; denominator = r.task_count }
  pub at_most : r.escalated_count ≤ r.task_count
  pub some_tasks : 0 < r.task_count

pub string-IsEquality : IsEquality ◌==◌
string-IsEquality = record {
  reflexive = λ a. eq_refl a;
  sound = λ a b e. ground (arith, e, eq_iff a b);
}

same_type_sound : (a b : Option String) → same_type a b ≡ true → a ≡ b
same_type_sound none none e = refl
same_type_sound none (some b) e = ground (arith, e)
same_type_sound (some a) none e = ground (arith, e)
same_type_sound (some a) (some b) e = ground (arith, e, eq_iff a b)

same_type_refl : (a : Option String) → same_type a a ≡ true
same_type_refl none = refl
same_type_refl (some a) = eq_refl a

pub type-IsEquality : IsEquality same_type
type-IsEquality = record { reflexive = same_type_refl; sound = same_type_sound }

pub day-IsEquality : IsEquality same_day
day-IsEquality = record { reflexive = λ a. ground arith; sound = λ a b e. ground (arith, e) }

pub same_type-is_of_type :
    (k : Option String) (t : TaskRecord) → same_type k t.task_type ≡ is_of_type k t
same_type-is_of_type none t = ground arith
same_type-is_of_type (some name) t = ground arith

pub same_day-is_on : (day : ℕ) (t : TaskRecord) → same_day day (day_of t) ≡ is_on day t
same_day-is_on day t = ground arith

pub keep-cong :
    (p q : TaskRecord → Bool) (xs : List TaskRecord)
    → ((x : TaskRecord) → p x ≡ q x)
    → keep p xs ≡ keep q xs
keep-cong p q [] h = refl
keep-cong p q (x ∷ xs) h = ground (arith, h x, keep-cong p q xs h)
