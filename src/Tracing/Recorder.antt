-- ===== src/Tracing/Recorder.antt =====
-- tracing/recorder.py: every trace event of a run becomes a span, and every tool call of it one
-- more. The exported OpenTelemetry spans are left out.
pub mod Once
pub mod Sums
pub mod Priced
pub mod Totals
use agent_orchestration_syst.Common.{
  ℕ, zero, suc, ◌+◌, ◌-◌, String, Option, none, some, List, [], ◌∷◌, ◌>>=◌, if◌then◌else◌, length,
}
use agent_orchestration_syst.Common.Dict.{Dict}
use agent_orchestration_syst.Schemas.{ToolCallLog}
use agent_orchestration_syst.Graph.State.{
  Attributes, success, failure, Node, of_node, TraceEvent, UsageEntry,
}
use agent_orchestration_syst.Tracing.Pricing.{Price, estimate_cost}
use agent_orchestration_syst.Tracing.Store.{node, tool, of_event, of_call, TraceStore, add_span}

-- `event["attributes"].get("tool_calls", [])`
abbrev pub tool_calls : Attributes → List ToolCallLog
tool_calls (Attributes.ran subtask_id output error retried calls prompt response via) = calls
tool_calls _ = []

abbrev pub input_tokens : List UsageEntry → ℕ
input_tokens [] = 0
input_tokens (u ∷ rest) = u.tokens.input_tokens + input_tokens rest

abbrev pub output_tokens : List UsageEntry → ℕ
output_tokens [] = 0
output_tokens (u ∷ rest) = u.tokens.output_tokens + output_tokens rest

-- The sum of the estimated costs, which raises where a price is missing.
unfoldable pub cost_of : Dict Price → List UsageEntry → Option ℕ
unfolding estimate_cost
cost_of prices [] = some 0
cost_of prices (u ∷ rest) =
    estimate_cost prices u.model u.tokens.input_tokens u.tokens.output_tokens >>= λ first.
    cost_of prices rest >>= λ others. some (first + others)

-- The spans of an event's tool calls.
unfoldable pub add_calls :
    TraceStore → (task_id : String) → TraceEvent → List ToolCallLog → TraceStore
unfolding add_span
add_calls store task_id event [] = store
add_calls store task_id event (call ∷ rest) =
    add_calls
      (add_span store task_id (tool call.tool_name) event.agent
        (if call.success then success else failure) (event.ended_at - call.latency_ms)
        event.ended_at 0 0 0 (some call.tool_name) (of_call call))
      task_id event rest

-- `_persist_and_export`
unfoldable pub persist_and_export :
    Dict Price → TraceStore → (task_id : String) → TraceEvent → Option TraceStore
unfolding cost_of add_calls add_span
persist_and_export prices store task_id event = cost_of prices event.usage >>= λ cost. some (
    add_calls
      (add_span store task_id (node event.node) event.agent event.status event.started_at
        event.ended_at (input_tokens event.usage) (output_tokens event.usage) cost none
        (of_event event.attributes))
      task_id event (tool_calls event.attributes))

unfoldable pub persist_all :
    Dict Price → TraceStore → (task_id : String) → List TraceEvent → Option TraceStore
persist_all prices store task_id [] = some store
persist_all prices store task_id (event ∷ rest) =
    persist_and_export prices store task_id event >>= λ store'.
    persist_all prices store' task_id rest

-- `events[recorded:]`
unfoldable pub from_index : ℕ → List TraceEvent → List TraceEvent
from_index zero events = events
from_index (suc n) [] = []
from_index (suc n) (event ∷ rest) = from_index n rest

-- `_record_new_events`: the store, and the new `recorded`.
unfoldable pub record_new_events :
    Dict Price → (task_id : String) → TraceStore × ℕ → List TraceEvent → Option (TraceStore × ℕ)
unfolding persist_all from_index
record_new_events prices task_id (store, recorded) events =
    persist_all prices store task_id (from_index recorded events) >>= λ store'.
    some (store', length events)

-- The calls of `_record_new_events` in `run_traced_task`: once for the first result, and once
-- after each resumption.
unfoldable pub record_results :
    Dict Price
    → (task_id : String) → TraceStore × ℕ
    → List (List TraceEvent)
    → Option (TraceStore × ℕ)
unfolding record_new_events
record_results prices task_id so_far [] = some so_far
record_results prices task_id so_far (events ∷ results) =
    record_new_events prices task_id so_far events >>= λ next.
    record_results prices task_id next results

-- `sum(1 for e in ... if e["node"] == "human_escalation")`
unfoldable pub escalation_count : List TraceEvent → ℕ
escalation_count [] = 0
escalation_count (e ∷ rest) =
    let others = escalation_count rest in
    elim e.node [ of_node Node.human_escalation ↦ suc others | _ ↦ others ]
