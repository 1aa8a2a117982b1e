-- ===== src/Tracing/Dashboards/Rates.antt =====
-- tracing/store.py: what the usage of tools and the escalations by day say of the tables.
use agent_orchestration_syst.Common.{
  ℕ, ◌≤◌, ◌≡◌, refl, ap, ◌∙◌, List, [], ◌∷◌, ◌==◌, ltb, length, map, get_or, All, arith,
}
use agent_orchestration_syst.Common.Tables.{group_by, rows_of, sum_of}
use agent_orchestration_syst.Common.Tables.Groups.{All-pinned}
use agent_orchestration_syst.Common.Tables.Laws.{
  count-summaries, descending-IsOrder, ascending-IsOrder, IsOrdered, order_by-IsOrdered,
}
use agent_orchestration_syst.Tracing.Store.{SpanRecord, TaskRecord, TraceStore}
use agent_orchestration_syst.Tracing.Dashboards.{
  count_of, day_of, escalation_rate_trends, finished_tasks, is_escalated, is_success, same_day,
  tool_spans, tool_usage, tool_usage_patterns, ToolUsage, trend, Trend,
}
use agent_orchestration_syst.Tracing.Dashboards.Rows.{
  IsDayRow, IsToolRow, day-IsEquality, is_on, keep-cong, same_day-is_on, string-IsEquality,
}

marked-le-length {ℓ} :
    {A : Type ℓ} (mark : A → ℕ)
    → ((x : A) → mark x ≤ 1)
    → (xs : List A) → sum_of mark xs ≤ length xs
unfolding sum_of
marked-le-length mark h [] = omega arith
marked-le-length mark h (x ∷ xs) = omega (arith, h x, marked-le-length mark h xs)

is_success-le : (s : SpanRecord) → is_success s ≤ 1
is_success-le s = ground arith

is_escalated-le : (t : TaskRecord) → is_escalated t ≤ 1
is_escalated-le t = ground arith

tool_rows : (store : TraceStore) → All (IsToolRow store) (tool_usage_patterns store)
unfolding tool_usage_patterns
tool_rows store =
    All-pinned ◌==◌ string-IsEquality (λ (s : SpanRecord). get_or s.tool_name "") (IsToolRow store)
      tool_usage _ (tool_spans store)
      λ g pinned. record {
        counted = ap length pinned;
        succeeded = ap (sum_of is_success) pinned;
        rate = refl;
        latency =
            ap
              (λ (spans : List SpanRecord). record {
                numerator = sum_of (λ s. s.latency) spans;
                denominator = count_of g;
              })
              pinned;
        at_most = marked-le-length is_success is_success-le (rows_of g);
        some_calls = omega arith;
      }

day_rows : (store : TraceStore) → All (IsDayRow store) (escalation_rate_trends store)
unfolding escalation_rate_trends
day_rows store =
    All-pinned same_day day-IsEquality day_of (IsDayRow store) trend _ (finished_tasks store)
      λ g pinned.
        let same =
          pinned
          ∙ keep-cong (λ t. same_day g.key (day_of t)) (is_on g.key) (finished_tasks store)
              (same_day-is_on g.key) in
        record {
          counted = ap length same;
          escalated = ap (sum_of is_escalated) same;
          rate = refl;
          at_most = marked-le-length is_escalated is_escalated-le (rows_of g);
          some_tasks = omega arith;
        }

-- Each row of the tool usage tells of all calls of its tool, and none other, and its rate is the
-- part of them that succeeded. Together the rows count every call of a tool once, the tool that is
-- called most first. Each row of the trends tells of all finished tasks that were started on its
-- day, and its rate is the part of them that was escalated. Together the rows count every finished
-- task once, the days in order. No rate is one of 0 calls or tasks.
pub dashboard_rates :
    (store : TraceStore)
    → let tools = tool_usage_patterns store in
      let days = escalation_rate_trends store in
      All (IsToolRow store) tools
      × (sum_of (λ r. r.call_count) tools ≡ length (tool_spans store))
      × IsOrdered (λ a b. ltb b.call_count a.call_count) tools
      × All (IsDayRow store) days
      × (sum_of (λ r. r.task_count) days ≡ length (finished_tasks store))
      × IsOrdered (λ a b. ltb a.day b.day) days
unfolding tool_usage_patterns escalation_rate_trends
dashboard_rates store =
    let name_of = λ (s : SpanRecord). get_or s.tool_name "" in
    let busier = λ (a : ToolUsage) (b : ToolUsage). ltb b.call_count a.call_count in
    let earlier = λ (a : Trend) (b : Trend). ltb a.day b.day in
    let calls = tool_spans store in
    let tasks = finished_tasks store in
    (
      tool_rows store,
      count-summaries ◌==◌ name_of tool_usage busier calls (λ r. r.call_count) (λ g. refl),
      order_by-IsOrdered busier (descending-IsOrder (λ (a : ToolUsage). a.call_count))
          (map tool_usage (group_by ◌==◌ name_of calls)),
      day_rows store,
      count-summaries same_day day_of trend earlier tasks (λ r. r.task_count) (λ g. refl),
      order_by-IsOrdered earlier (ascending-IsOrder (λ (a : Trend). a.day))
          (map trend (group_by same_day day_of tasks)),
    )
