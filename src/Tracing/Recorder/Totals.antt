-- ===== src/Tracing/Recorder/Totals.antt =====
-- tracing/recorder.py and tracing/store.py: the totals of a finished task.
use agent_orchestration_syst.Common.{
  ℕ, ◌≡◌, refl, String, false, Option, some, List, [], ◌∷◌, ◌>>=◌, ◌==◌, arith, ◌∙◌, sym, ap,
  AtSome, AtSome-bind, AtSome-of, All, eq_iff, subst,
}
use agent_orchestration_syst.Common.Dict.{Dict}
use agent_orchestration_syst.Graph.State.{TraceEvent}
use agent_orchestration_syst.Tracing.Pricing.{Price}
use agent_orchestration_syst.Tracing.Store.{
  SpanRecord, TaskRecord, TaskStatus, TraceStore, close_task, find_task, finish_task, get_task,
  is_tool_call, sum_spans, update_task,
}
use agent_orchestration_syst.Tracing.Recorder.{persist_all, record_results}
use agent_orchestration_syst.Tracing.Recorder.Once.{Growing, last_of, record_results-once}
use agent_orchestration_syst.Tracing.Recorder.Sums.{
  event_inputs, event_outputs, event_calls, Grown, persist_all-Grown,
}

pub find-update :
    (id : String) (f : TaskRecord → TaskRecord) (tasks : List TaskRecord)
    → ((t : TaskRecord) → (f t).task_id ≡ t.task_id)
    → find_task id (update_task id f tasks) ≡ (find_task id tasks >>= λ t. some (f t))
unfolding find_task update_task
find-update id f [] same = refl
find-update id f (t ∷ rest) same = ground (arith, same t, find-update id f rest same)

find_task-id :
    (id : String) (tasks : List TaskRecord) {t : TaskRecord}
    → find_task id tasks ≡ some t
    → t.task_id ≡ id
unfolding find_task
find_task-id id [] e = ground (arith, e)
find_task-id id (u ∷ rest) {t} e =
    ground (arith, e, find_task-id id rest {t = t}, eq_iff u.task_id id)

sum_spans-fresh :
    (column : SpanRecord → ℕ) (id : String) (spans : List SpanRecord)
    → All (λ s. (s.task_id == id) ≡ false) spans
    → sum_spans column id spans ≡ 0
unfolding sum_spans
sum_spans-fresh column id [] h = refl
sum_spans-fresh column id (s ∷ rest) h = ground (arith, h.0, sum_spans-fresh column id rest h.1)

-- The totals of a row are the sums over some events, and it has the given status.
pub record Totals (es : List TraceEvent) (status : TaskStatus) (escalations : ℕ) (t : TaskRecord)
    : Type 0 where
  pub inputs : t.total_input_tokens ≡ event_inputs es
  pub outputs : t.total_output_tokens ≡ event_outputs es
  pub calls : t.total_tool_calls ≡ event_calls es
  pub with_status : t.status ≡ status
  pub escalated : t.escalation_count ≡ escalations

pub finish_task-Totals :
    (id : String) (store store' : TraceStore) (es : List TraceEvent) (now : ℕ) (status : TaskStatus)
    (task_type : Option String) (human_review escalations : ℕ)
    → All (λ s. (s.task_id == id) ≡ false) store.spans
    → Grown id (event_inputs es) (event_outputs es) (event_calls es) store store'
    → AtSome
        (λ store''. AtSome (Totals es status escalations) (get_task store'' id))
        (finish_task store' id now status task_type human_review escalations)
unfolding finish_task close_task
finish_task-Totals id store store' es now status task_type human_review escalations fresh g =
    AtSome-bind (λ (s : TraceStore). AtSome (Totals es status escalations) (get_task s id))
      (find_task id store'.tasks) _
      λ t e.
        subst (AtSome (Totals es status escalations))
          (sym (
            find-update id
              (close_task store'.spans now t.started_at status task_type human_review escalations)
              store'.tasks (λ u. refl)
            ∙ ap
                (λ o. o >>= λ u. some (
                  close_task store'.spans now t.started_at status task_type human_review escalations
                    u))
                e))
          (record {
            inputs = rw (find_task-id id store'.tasks {t = t} e) (
                omega (
                  arith,
                  g.inputs_grew,
                  sum_spans-fresh (λ s. s.input_tokens) id store.spans fresh,
                ));
            outputs = rw (find_task-id id store'.tasks {t = t} e) (
                omega (
                  arith,
                  g.outputs_grew,
                  sum_spans-fresh (λ s. s.output_tokens) id store.spans fresh,
                ));
            calls =
                rw (find_task-id id store'.tasks {t = t} e)
                  (omega (arith, g.calls_grew, sum_spans-fresh is_tool_call id store.spans fresh));
            with_status = refl;
            escalated = refl;
          })

-- When a run of a new task is recorded over its interruptions and then finished, the row of the
-- task holds the sums of the input tokens, the output tokens and the tool calls over the events
-- of its last result, and the status and the count of escalations that it was finished with.
pub finished-Totals :
    (prices : Dict Price) (id : String) (store store' store'' : TraceStore) (n : ℕ)
    (results : List (List TraceEvent)) (now : ℕ) (status : TaskStatus) (task_type : Option String)
    (human_review escalations : ℕ) (t : TaskRecord)
    → All (λ s. (s.task_id == id) ≡ false) store.spans
    → Growing [] results
    → record_results prices id (store, 0) results ≡ some (store', n)
    → finish_task store' id now status task_type human_review escalations ≡ some store''
    → get_task store'' id ≡ some t
    → Totals (last_of [] results) status escalations t
finished-Totals prices id store store' store'' n results now status task_type human_review
      escalations t fresh g recorded finished found =
    AtSome-of (Totals es status escalations) (get_task store'' id)
      (AtSome-of (λ s. AtSome (Totals es status escalations) (get_task s id)) _
        (finish_task-Totals id store store' es now status task_type human_review escalations fresh (
          AtSome-of (Grown id (event_inputs es) (event_outputs es) (event_calls es) store)
            (persist_all prices store id es) (persist_all-Grown prices store id es) persisted))
        finished)
      found
  where
    es : List TraceEvent
    es = last_of [] results

    persisted : persist_all prices store id es ≡ some store'
    persisted = ground (arith, record_results-once prices id store results g, recorded)
