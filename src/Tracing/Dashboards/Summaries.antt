-- ===== src/Tracing/Dashboards/Summaries.antt =====
-- tracing/store.py: what the costs by task type and by agent say of the tables.
use agent_orchestration_syst.Common.{
  arith, ℕ, ◌≤◌, ◌≡◌, refl, ap, ◌∙◌, List, [], ◌==◌, ◌⊎◌, ◌+◌, ltb, length, map, All, Bool, false,
}
use agent_orchestration_syst.Common.Tables.{group_by, sum_of}
use agent_orchestration_syst.Common.Tables.Groups.{All-pinned}
use agent_orchestration_syst.Common.Tables.Laws.{
  count-summaries, sum_of-summaries, descending-IsOrder, IsOrdered, left_out, left_out-All,
  left_out_later, length-limit, length-limit_cases, limit-All, limit-IsOrdered, order_by-IsOrdered,
  sum_of-left_out,
}
use agent_orchestration_syst.Tracing.Store.{SpanRecord, TaskRecord, TraceStore}
use agent_orchestration_syst.Tracing.Dashboards.{
  agent_cost, AgentCost, count_of, cost_by_task_type, finished_tasks, most_expensive_agents,
  ranked_agents, same_type, type_cost, TypeCost,
}
use agent_orchestration_syst.Tracing.Dashboards.Rows.{
  IsAgentRow, IsTypeRow, is_of_type, keep-cong, same_type-is_of_type, string-IsEquality,
  type-IsEquality,
}

cost_by_task_type-total :
    (store : TraceStore)
    → (sum_of (λ r. r.task_count) (cost_by_task_type store) ≡ length (finished_tasks store))
      × (sum_of (λ r. r.total_cost) (cost_by_task_type store)
          ≡ sum_of (λ t. t.total_cost) (finished_tasks store))
      × IsOrdered (λ a b. ltb b.total_cost a.total_cost) (cost_by_task_type store)
unfolding cost_by_task_type
cost_by_task_type-total store = (
  count-summaries same_type (λ t. t.task_type) type_cost (λ a b. ltb b.total_cost a.total_cost)
      (finished_tasks store) (λ r. r.task_count) (λ g. refl),
  sum_of-summaries same_type (λ t. t.task_type) type_cost (λ a b. ltb b.total_cost a.total_cost)
      (finished_tasks store) (λ r. r.total_cost) (λ t. t.total_cost) (λ g. refl),
  order_by-IsOrdered (λ (a : TypeCost) (b : TypeCost). ltb b.total_cost a.total_cost)
      (descending-IsOrder (λ (a : TypeCost). a.total_cost))
      (map type_cost (group_by same_type (λ (t : TaskRecord). t.task_type) (finished_tasks store))),
)

type_rows : (store : TraceStore) → All (IsTypeRow store) (cost_by_task_type store)
unfolding cost_by_task_type
type_rows store =
    All-pinned same_type type-IsEquality (λ (t : TaskRecord). t.task_type) (IsTypeRow store)
      type_cost _ (finished_tasks store)
      λ g pinned.
        let same =
          pinned
          ∙ keep-cong (λ t. same_type g.key t.task_type) (is_of_type g.key) (finished_tasks store)
              (same_type-is_of_type g.key) in
        record {
          of_type = g.key;
          shown = refl;
          counted = ap length same;
          summed = ap (sum_of (λ t. t.total_cost)) same;
          averaged = refl;
          some_tasks = omega arith;
        }

agent_rows : (store : TraceStore) → All (IsAgentRow store) (ranked_agents store)
unfolding ranked_agents
agent_rows store =
    All-pinned ◌==◌ string-IsEquality (λ (s : SpanRecord). s.agent) (IsAgentRow store) agent_cost _
      store.spans
      λ g pinned. record {
        counted = ap length pinned;
        cost = ap (sum_of (λ s. s.cost)) pinned;
        inputs = ap (sum_of (λ s. s.input_tokens)) pinned;
        outputs = ap (sum_of (λ s. s.output_tokens)) pinned;
        latency =
            ap
              (λ (spans : List SpanRecord). record {
                numerator = sum_of (λ s. s.latency) spans;
                denominator = count_of g;
              })
              pinned;
        some_calls = omega arith;
      }

dearer_agents : AgentCost → AgentCost → Bool
dearer_agents a b = ltb b.total_cost a.total_cost

ranked_agents-total :
    (store : TraceStore)
    → (sum_of (λ r. r.call_count) (ranked_agents store) ≡ length store.spans)
      × (sum_of (λ r. r.total_cost) (ranked_agents store) ≡ sum_of (λ s. s.cost) store.spans)
      × IsOrdered dearer_agents (ranked_agents store)
unfolding ranked_agents dearer_agents
ranked_agents-total store = (
  count-summaries ◌==◌ (λ s. s.agent) agent_cost dearer_agents store.spans (λ r. r.call_count)
      (λ g. refl),
  sum_of-summaries ◌==◌ (λ s. s.agent) agent_cost dearer_agents store.spans (λ r. r.total_cost)
      (λ s. s.cost) (λ g. refl),
  order_by-IsOrdered dearer_agents (descending-IsOrder (λ (a : AgentCost). a.total_cost))
      (map agent_cost (group_by ◌==◌ (λ (s : SpanRecord). s.agent) store.spans)),
)

-- The agents that are shown and those that LIMIT leaves out: each row tells of all spans of its
-- agent, and together they count every span once and cost what all spans do.
pub record IsRanking (store : TraceStore) (count : ℕ) (shown others : List AgentCost) : Type 0 where
  pub rows : All (IsAgentRow store) shown
  pub other_rows : All (IsAgentRow store) others
  pub calls :
      sum_of (λ r. r.call_count) shown + sum_of (λ r. r.call_count) others ≡ length store.spans
  pub costs :
      sum_of (λ r. r.total_cost) shown + sum_of (λ r. r.total_cost) others
      ≡ sum_of (λ s. s.cost) store.spans
  pub at_most : length shown ≤ count
  pub full : (length shown ≡ count) ⊎ (others ≡ [])
  pub ordered : IsOrdered (λ a b. ltb b.total_cost a.total_cost) shown
  pub cheaper : All (λ a. All (λ b. ltb a.total_cost b.total_cost ≡ false) others) shown

most_expensive_agents-IsRanking :
    (store : TraceStore) (count : ℕ)
    → IsRanking store count
        (most_expensive_agents store count)
        (left_out count (ranked_agents store))
unfolding most_expensive_agents dearer_agents
most_expensive_agents-IsRanking store count =
    let ranked = ranked_agents store in
    let (calls, costs, ordered) = ranked_agents-total store in
    record {
      rows = limit-All (IsAgentRow store) count ranked (agent_rows store);
      other_rows = left_out-All (IsAgentRow store) count ranked (agent_rows store);
      calls = sum_of-left_out (λ r. r.call_count) count ranked ∙ calls;
      costs = sum_of-left_out (λ r. r.total_cost) count ranked ∙ costs;
      at_most = length-limit count ranked;
      full = length-limit_cases count ranked;
      ordered = limit-IsOrdered dearer_agents count ranked ordered;
      cheaper = left_out_later dearer_agents count ranked ordered;
    }

-- Each row of the costs by task type tells of all finished tasks of its type, and none other: how
-- many they are, what they cost and the average. Together the rows count every finished task once,
-- the dearest type first. Each row of the most expensive agents tells of all spans of its agent.
-- They are at most as many as asked for and all agents where fewer are left, the dearest first, and
-- with the agents that are left out, which are not dearer, they count every span once. No row is one
-- of 0 tasks or spans.
pub dashboard_costs :
    (store : TraceStore) (count : ℕ)
    → let types = cost_by_task_type store in
      All (IsTypeRow store) types
      × (sum_of (λ r. r.task_count) types ≡ length (finished_tasks store))
      × (sum_of (λ r. r.total_cost) types ≡ sum_of (λ t. t.total_cost) (finished_tasks store))
      × IsOrdered (λ a b. ltb b.total_cost a.total_cost) types
      × ((others : List AgentCost) × IsRanking store count
            (most_expensive_agents store count)
            others)
dashboard_costs store count =
    let (counts, costs, ordered) = cost_by_task_type-total store in
    (
      type_rows store,
      counts,
      costs,
      ordered,
      (left_out count (ranked_agents store), most_expensive_agents-IsRanking store count),
    )
