-- ===== src/Examples/Dashboards.antt =====
-- The theorems on the dashboards of tracing/store.py, applied to three tasks of two users.
use agent_orchestration_syst.Common.{
  ℕ, ◌≡◌, String, true, Option, none, some, List, [], ◌∷◌, ◌==◌, ltb, length, All, refl,
}
use agent_orchestration_syst.Common.Tables.{sum_of, insert_by}
use agent_orchestration_syst.Common.Tables.Laws.{IsOrdered}
use agent_orchestration_syst.Graph.State.{EventStatus, Status}
use agent_orchestration_syst.Tracing.Store.{
  ended, running, SpanRecord, sum_spans, TaskRecord, TaskStatus, tool, TraceStore, SpanAttributes,
}
use agent_orchestration_syst.Graph.State.{Attributes}
use agent_orchestration_syst.Tracing.Dashboards.{
  AgentCost, cost_by_task_type, escalation_rate_trends, finished_tasks, get_spans, list_tasks,
  most_expensive_agents, starts_earlier, tool_spans, tool_usage_patterns,
}
use agent_orchestration_syst.Tracing.Dashboards.Rows.{IsDayRow, IsToolRow, IsTypeRow}
use agent_orchestration_syst.Tracing.Dashboards.Summaries.{dashboard_costs, IsRanking}
use agent_orchestration_syst.Tracing.Dashboards.Rates.{dashboard_rates}
use agent_orchestration_syst.Tracing.Dashboards.Listing.{IsListing, list_tasks-newest}

abbrev task :
    (task_id user_id : String) → TaskStatus → (started_at cost escalations : ℕ) → TaskRecord
task task_id user_id status started_at cost escalations = record {
  task_id = task_id;
  user_id = user_id;
  task_text = "task";
  task_type = some "writing";
  status = status;
  started_at = started_at;
  ended_at = none;
  wall_clock = none;
  human_review = 0;
  total_input_tokens = 10;
  total_output_tokens = 4;
  total_cost = cost;
  total_tool_calls = 0;
  escalation_count = escalations;
}

abbrev span :
    (task_id : String)
    → EventStatus
    → (tool_name : Option String) → (started_at cost : ℕ) → SpanRecord
span task_id status tool_name started_at cost = record {
  task_id = task_id;
  node_name = tool "run_code";
  agent = "writing";
  status = status;
  tool_name = tool_name;
  started_at = started_at;
  ended_at = started_at;
  latency = 0;
  input_tokens = 10;
  output_tokens = 4;
  cost = cost;
  attributes = SpanAttributes.of_event Attributes.nothing;
}

abbrev store : TraceStore
store = record {
  tasks =
      task "t-1" "u" (ended Status.completed) 5 7 0
      ∷ task "t-2" "v" (ended Status.completed) 6 1 2
      ∷ task "t-3" "u" running 9 0 0
      ∷ [];
  spans =
      span "t-1" EventStatus.success (some "run_code") 8 0
      ∷ span "t-1" EventStatus.failure (some "run_code") 6 0
      ∷ span "t-2" EventStatus.success none 7 7
      ∷ [];
}

-- The newest task of the user, and the spans in the order of their start.
listed : list_tasks store 1 (some "u") ≡ task "t-3" "u" running 9 0 0 ∷ []
unfolding list_tasks insert_by
listed = refl

spans_listed :
    get_spans store "t-1"
    ≡ span "t-1" EventStatus.failure (some "run_code") 6 0
      ∷ span "t-1" EventStatus.success (some "run_code") 8 0
      ∷ []
unfolding get_spans insert_by
spans_listed = refl

list_tasks-newest_example :
    ((others : List TaskRecord) × IsListing store 1
        (some "u")
        (list_tasks store 1 (some "u"))
        others)
    × ((column : SpanRecord → ℕ)
        → sum_of column (get_spans store "t-1") ≡ sum_spans column "t-1" store.spans)
    × All (λ s. (s.task_id == "t-1") ≡ true) (get_spans store "t-1")
    × IsOrdered starts_earlier (get_spans store "t-1")
list_tasks-newest_example = list_tasks-newest store 1 (some "u") "t-1"

dashboard_costs_example :
    All (IsTypeRow store) (cost_by_task_type store)
    × (sum_of (λ r. r.task_count) (cost_by_task_type store) ≡ length (finished_tasks store))
    × (sum_of (λ r. r.total_cost) (cost_by_task_type store)
        ≡ sum_of (λ t. t.total_cost) (finished_tasks store))
    × IsOrdered (λ a b. ltb b.total_cost a.total_cost) (cost_by_task_type store)
    × ((others : List AgentCost) × IsRanking store 10 (most_expensive_agents store 10) others)
dashboard_costs_example = dashboard_costs store 10

dashboard_rates_example :
    All (IsToolRow store) (tool_usage_patterns store)
    × (sum_of (λ r. r.call_count) (tool_usage_patterns store) ≡ length (tool_spans store))
    × IsOrdered (λ a b. ltb b.call_count a.call_count) (tool_usage_patterns store)
    × All (IsDayRow store) (escalation_rate_trends store)
    × (sum_of (λ r. r.task_count) (escalation_rate_trends store) ≡ length (finished_tasks store))
    × IsOrdered (λ a b. ltb a.day b.day) (escalation_rate_trends store)
dashboard_rates_example = dashboard_rates store
