-- ===== src/Tracing/Recorder/Sums.antt =====
-- tracing/recorder.py and tracing/store.py: the sums over the spans of a task as events are recorded.
use agent_orchestration_syst.Common.{
  ℕ, ◌+◌, ◌-◌, ◌≡◌, refl, String, some, List, [], ◌∷◌, ◌++◌, if◌then◌else◌, length, arith, ◌∙◌,
  eq_refl, AtSome, AtSome-bind, AtSome-of, AtSome-map,
}
use agent_orchestration_syst.Common.Dict.{Dict}
use agent_orchestration_syst.Schemas.{ToolCallLog}
use agent_orchestration_syst.Graph.State.{TraceEvent, success, failure}
use agent_orchestration_syst.Tracing.Pricing.{Price}
use agent_orchestration_syst.Tracing.Store.{
  SpanRecord, tool, of_call, TraceStore, add_span, is_tool_call, sum_spans,
}
use agent_orchestration_syst.Tracing.Recorder.{
  add_calls, cost_of, input_tokens, output_tokens, persist_all, persist_and_export, tool_calls,
}

-- The sums over the events of a run.
abbrev pub event_inputs : List TraceEvent → ℕ
event_inputs [] = 0
event_inputs (e ∷ rest) = input_tokens e.usage + event_inputs rest

abbrev pub event_outputs : List TraceEvent → ℕ
event_outputs [] = 0
event_outputs (e ∷ rest) = output_tokens e.usage + event_outputs rest

abbrev pub event_calls : List TraceEvent → ℕ
event_calls [] = 0
event_calls (e ∷ rest) = length (tool_calls e.attributes) + event_calls rest

sum_spans-append :
    (column : SpanRecord → ℕ) (id : String) (xs ys : List SpanRecord)
    → sum_spans column id (xs ++ ys) ≡ sum_spans column id xs + sum_spans column id ys
unfolding sum_spans
sum_spans-append column id [] ys = omega arith
sum_spans-append column id (x ∷ xs) ys = ground (arith, sum_spans-append column id xs ys)

-- A store after some spans of a task were added: the sums grew, and the tasks are as they were.
pub record Grown (id : String) (inputs outputs calls : ℕ) (store store' : TraceStore) : Type 0 where
  pub inputs_grew :
      sum_spans (λ s. s.input_tokens) id store'.spans
      ≡ sum_spans (λ s. s.input_tokens) id store.spans + inputs
  pub outputs_grew :
      sum_spans (λ s. s.output_tokens) id store'.spans
      ≡ sum_spans (λ s. s.output_tokens) id store.spans + outputs
  pub calls_grew :
      sum_spans is_tool_call id store'.spans ≡ sum_spans is_tool_call id store.spans + calls
  pub same_tasks : store'.tasks ≡ store.tasks

Grown-append :
    {id : String} {i o c i' o' c' i'' o'' c'' : ℕ} {s s' s'' : TraceStore}
    → i + i' ≡ i''
    → o + o' ≡ o''
    → c + c' ≡ c''
    → Grown id i o c s s'
    → Grown id i' o' c' s' s''
    → Grown id i'' o'' c'' s s''
Grown-append p q r h k = record {
  inputs_grew = omega (arith, p, h.inputs_grew, k.inputs_grew);
  outputs_grew = omega (arith, q, h.outputs_grew, k.outputs_grew);
  calls_grew = omega (arith, r, h.calls_grew, k.calls_grew);
  same_tasks = k.same_tasks ∙ h.same_tasks;
}

-- One more span of the task.
span-Grown :
    (store : TraceStore) (id : String) (span : SpanRecord)
    → span.task_id ≡ id
    → Grown id span.input_tokens span.output_tokens
        (is_tool_call span)
        store
        (record store { spans = store.spans ++ span ∷ [] })
unfolding sum_spans
span-Grown store id span e = record {
  inputs_grew =
      ground
        (arith, sum_spans-append (λ s. s.input_tokens) id store.spans (span ∷ []), e, eq_refl id);
  outputs_grew =
      ground
        (arith, sum_spans-append (λ s. s.output_tokens) id store.spans (span ∷ []), e, eq_refl id);
  calls_grew =
      ground (arith, sum_spans-append is_tool_call id store.spans (span ∷ []), e, eq_refl id);
  same_tasks = refl;
}

Grown-refl : (id : String) (s : TraceStore) → Grown id 0 0 0 s s
Grown-refl id s = record {
  inputs_grew = omega arith;
  outputs_grew = omega arith;
  calls_grew = omega arith;
  same_tasks = refl;
}

add_calls-Grown :
    (store : TraceStore) (id : String) (event : TraceEvent) (calls : List ToolCallLog)
    → Grown id 0 0 (length calls) store (add_calls store id event calls)
unfolding add_calls add_span
add_calls-Grown store id event [] = Grown-refl id store
add_calls-Grown store id event (call ∷ rest) =
    let first =
      add_span store id (tool call.tool_name) event.agent
        (if call.success then success else failure) (event.ended_at - call.latency_ms)
        event.ended_at 0 0 0 (some call.tool_name) (of_call call) in
    Grown-append (omega arith) (omega arith) (omega arith) (span-Grown store id _ refl)
      (add_calls-Grown first id event rest)

persist_and_export-Grown :
    (prices : Dict Price) (store : TraceStore) (id : String) (e : TraceEvent)
    → AtSome
        (Grown id
          (input_tokens e.usage)
          (output_tokens e.usage)
          (length (tool_calls e.attributes))
          store)
        (persist_and_export prices store id e)
unfolding persist_and_export add_span
persist_and_export-Grown prices store id e =
    AtSome-bind
      (Grown id (input_tokens e.usage) (output_tokens e.usage) (length (tool_calls e.attributes))
        store)
      (cost_of prices e.usage) _
      λ cost _.
        Grown-append (omega arith) (omega arith) (omega arith) (span-Grown store id _ refl)
          (add_calls-Grown _ id e (tool_calls e.attributes))

pub persist_all-Grown :
    (prices : Dict Price) (store : TraceStore) (id : String) (es : List TraceEvent)
    → AtSome
        (Grown id (event_inputs es) (event_outputs es) (event_calls es) store)
        (persist_all prices store id es)
unfolding persist_all
persist_all-Grown prices store id [] = Grown-refl id store
persist_all-Grown prices store id (e ∷ rest) =
    AtSome-bind
      (Grown id (event_inputs (e ∷ rest)) (event_outputs (e ∷ rest)) (event_calls (e ∷ rest)) store)
      (persist_and_export prices store id e) _
      λ store' p.
        AtSome-map _ _ (persist_all prices store' id rest)
          (λ s k.
            Grown-append refl refl refl
              (AtSome-of _ (persist_and_export prices store id e)
                (persist_and_export-Grown prices store id e) p)
              k)
          (persist_all-Grown prices store' id rest)
