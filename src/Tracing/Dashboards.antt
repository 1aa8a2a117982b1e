-- ===== src/Tracing/Dashboards.antt =====
-- tracing/store.py: the queries of the dashboards. An average and a rate are the two numbers that
-- are divided. Where ORDER BY leaves the order of equal rows open, it is that of the table.
pub mod Rows
pub mod Summaries
pub mod Rates
pub mod Listing
use Prim.Native.Nat.{◌/◌}
use agent_orchestration_syst.Common.{
  ℕ, String, Bool, true, false, ◌&&◌, Option, none, some, List, ◌==◌, ltb, leb, if◌then◌else◌, keep,
  length, map, truthy, get_or, is_some,
}
use agent_orchestration_syst.Common.Tables.{Group, group_by, limit, order_by, rows_of, sum_of}
use agent_orchestration_syst.Graph.State.{success}
use agent_orchestration_syst.Tracing.Store.{
  ended, running, SpanRecord, TaskRecord, TraceStore, unknown,
}

-- A quotient. The count of a group is never 0.
pub record Ratio : Type 0 where
  pub numerator : ℕ
  pub denominator : ℕ

-- COUNT(*) and SUM of a column over a group.
abbrev pub count_of {ℓ κ} : {K : Type κ} {A : Type ℓ} → Group K A → ℕ
count_of g = length (rows_of g)

abbrev pub total_of {ℓ κ} : {K : Type κ} {A : Type ℓ} → (A → ℕ) → Group K A → ℕ
total_of column g = sum_of column (rows_of g)

abbrev pub average_of {ℓ κ} : {K : Type κ} {A : Type ℓ} → (A → ℕ) → Group K A → Ratio
average_of column g = record { numerator = total_of column g; denominator = count_of g }

-- `user_id = ?`, where a user is given.
abbrev pub is_of_user : (user_id : Option String) → TaskRecord → Bool
is_of_user user_id t = if truthy user_id then t.user_id == get_or user_id "" else true

-- ORDER BY started_at DESC
abbrev pub is_newer : TaskRecord → TaskRecord → Bool
is_newer t u = ltb u.started_at t.started_at

-- `list_tasks`, for a limit that is not negative.
unfoldable pub list_tasks : TraceStore → (count : ℕ) → (user_id : Option String) → List TaskRecord
unfolding limit order_by
list_tasks store count user_id =
    limit count (order_by is_newer (keep (is_of_user user_id) store.tasks))

-- ORDER BY started_at ASC, id ASC: the place in the table is the id.
abbrev pub starts_earlier : SpanRecord → SpanRecord → Bool
starts_earlier s u = ltb s.started_at u.started_at

-- `get_spans`
unfoldable pub get_spans : TraceStore → (task_id : String) → List SpanRecord
unfolding order_by
get_spans store task_id =
    order_by starts_earlier (keep (λ (s : SpanRecord). s.task_id == task_id) store.spans)

-- `status != 'running'`
abbrev pub is_finished : TaskRecord → Bool
is_finished t = elim t.status [ running ↦ false | unknown ↦ true | ended _ ↦ true ]

abbrev pub finished_tasks : TraceStore → List TaskRecord
finished_tasks store = keep is_finished store.tasks

-- NULL is a key of its own.
abbrev pub same_type : Option String → Option String → Bool
same_type none none = true
same_type none (some _) = false
same_type (some _) none = false
same_type (some a) (some b) = a == b

pub record TypeCost : Type 0 where
  pub task_type : String
  pub task_count : ℕ
  pub total_cost : ℕ
  pub avg_cost : Ratio

abbrev pub type_cost : Group (Option String) TaskRecord → TypeCost
type_cost g = record {
  task_type = get_or g.key "unknown";
  task_count = count_of g;
  total_cost = total_of (λ t. t.total_cost) g;
  avg_cost = average_of (λ t. t.total_cost) g;
}

-- `cost_by_task_type`
unfoldable pub cost_by_task_type : TraceStore → List TypeCost
unfolding order_by group_by
cost_by_task_type store =
    order_by (λ (a : TypeCost) (b : TypeCost). ltb b.total_cost a.total_cost)
      (map type_cost (group_by same_type (λ (t : TaskRecord). t.task_type) (finished_tasks store)))

pub record AgentCost : Type 0 where
  pub agent : String
  pub call_count : ℕ
  pub total_cost : ℕ
  pub total_input_tokens : ℕ
  pub total_output_tokens : ℕ
  pub avg_latency : Ratio

abbrev pub agent_cost : Group String SpanRecord → AgentCost
agent_cost g = record {
  agent = g.key;
  call_count = count_of g;
  total_cost = total_of (λ s. s.cost) g;
  total_input_tokens = total_of (λ s. s.input_tokens) g;
  total_output_tokens = total_of (λ s. s.output_tokens) g;
  avg_latency = average_of (λ s. s.latency) g;
}

-- The agents before LIMIT.
unfoldable pub ranked_agents : TraceStore → List AgentCost
unfolding order_by group_by
ranked_agents store =
    order_by (λ (a : AgentCost) (b : AgentCost). ltb b.total_cost a.total_cost)
      (map agent_cost (group_by ◌==◌ (λ (s : SpanRecord). s.agent) store.spans))

-- `most_expensive_agents`
unfoldable pub most_expensive_agents : TraceStore → (count : ℕ) → List AgentCost
unfolding limit ranked_agents
most_expensive_agents store count = limit count (ranked_agents store)

pub record ToolUsage : Type 0 where
  pub tool_name : String
  pub call_count : ℕ
  pub success_count : ℕ
  pub avg_latency : Ratio
  pub success_rate : Ratio

-- `CASE WHEN status = 'success' THEN 1 ELSE 0 END`
abbrev pub is_success : SpanRecord → ℕ
is_success s = elim s.status [ success ↦ 1 | _ ↦ 0 ]

abbrev pub tool_usage : Group String SpanRecord → ToolUsage
tool_usage g = record {
  tool_name = g.key;
  call_count = count_of g;
  success_count = total_of is_success g;
  avg_latency = average_of (λ s. s.latency) g;
  success_rate = record { numerator = total_of is_success g; denominator = count_of g };
}

-- `WHERE tool_name IS NOT NULL`
abbrev pub tool_spans : TraceStore → List SpanRecord
tool_spans store = keep (λ (s : SpanRecord). is_some s.tool_name) store.spans

-- `tool_usage_patterns`
unfoldable pub tool_usage_patterns : TraceStore → List ToolUsage
unfolding order_by group_by
tool_usage_patterns store =
    order_by (λ (a : ToolUsage) (b : ToolUsage). ltb b.call_count a.call_count)
      (map tool_usage
        (group_by ◌==◌ (λ (s : SpanRecord). get_or s.tool_name "") (tool_spans store)))

pub record Trend : Type 0 where
  pub day : ℕ
  pub task_count : ℕ
  pub escalated_count : ℕ
  pub escalation_rate : Ratio

-- `CASE WHEN escalation_count > 0 THEN 1 ELSE 0 END`
abbrev pub is_escalated : TaskRecord → ℕ
is_escalated t = if ltb 0 t.escalation_count then 1 else 0

-- `date(started_at, 'unixepoch')`, as the number of the day.
abbrev pub day_of : TaskRecord → ℕ
day_of t = t.started_at / 86_400_000_000_000

abbrev pub same_day : ℕ → ℕ → Bool
same_day a b = leb a b && leb b a

abbrev pub trend : Group ℕ TaskRecord → Trend
trend g = record {
  day = g.key;
  task_count = count_of g;
  escalated_count = total_of is_escalated g;
  escalation_rate = record { numerator = total_of is_escalated g; denominator = count_of g };
}

-- `escalation_rate_trends`
unfoldable pub escalation_rate_trends : TraceStore → List Trend
unfolding order_by group_by
escalation_rate_trends store =
    order_by (λ (a : Trend) (b : Trend). ltb a.day b.day)
      (map trend (group_by same_day day_of (finished_tasks store)))
