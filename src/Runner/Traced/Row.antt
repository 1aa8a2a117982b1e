-- ===== src/Runner/Traced/Row.antt =====
-- tracing/recorder.py and tracing/store.py: the row that the end of a traced run leaves.
use agent_orchestration_syst.Common.{
  ℕ, ◌-◌, ◌≡◌, refl, String, false, Option, some, ◌==◌, All, AtSome, AtSome-of,
}
use agent_orchestration_syst.Common.Dict.{Dict}
use agent_orchestration_syst.HumanLoop.Models.{PendingApproval}
use agent_orchestration_syst.Tracing.Pricing.{Price}
use agent_orchestration_syst.Tracing.Store.{
  find_task, TaskRecord, TraceStore, close_task, finish_task, get_task,
}
use agent_orchestration_syst.Tracing.Recorder.{escalation_count, persist_all}
use agent_orchestration_syst.Tracing.Recorder.Sums.{Grown, persist_all-Grown}
use agent_orchestration_syst.Tracing.Recorder.Totals.{Totals, finish_task-Totals}
use agent_orchestration_syst.Tracing.Recorder.Priced.{finish_task-found}
use agent_orchestration_syst.Runner.Traced.{human_review_of, status_of, task_type_of, TracedResult}

-- What the row of a task tells of its run: the sums over the events of the last result, its
-- status and number of escalations, the types of its subtasks, how long the run took and how long
-- the human took over the entry that the queue has at the end.
pub record RowOf (result : TracedResult) (approval : Option PendingApproval) (started now : ℕ)
    (t : TaskRecord) : Type 0 where
  pub totals :
      Totals result.trace_events (status_of result.status) (escalation_count result.trace_events) t
  pub task_type : t.task_type ≡ some (task_type_of result.plan)
  pub wall_clock : t.wall_clock ≡ some (now - started)
  pub human_review : t.human_review ≡ human_review_of approval

-- The end of a recorded run.
pub finished-RowOf :
    (id : String) (store recorded : TraceStore) (row : TaskRecord) (result : TracedResult)
    (approval : Option PendingApproval) (started now : ℕ)
    → All (λ s. (s.task_id == id) ≡ false) store.spans
    → row.started_at ≡ started
    → find_task id recorded.tasks ≡ some row
    → (prices : Dict Price) → persist_all prices store id result.trace_events ≡ some recorded
    → (store' : TraceStore) × (finish_task recorded id now
          (status_of result.status)
          (some (task_type_of result.plan))
          (human_review_of approval)
          (escalation_count result.trace_events)
        ≡ some store')
      × (t : TaskRecord) × (get_task store' id ≡ some t)
      × RowOf result approval started now t
unfolding close_task
finished-RowOf id store recorded row result approval started now fresh e found prices p =
    let es = result.trace_events in
    let status = status_of result.status in
    let (store', finished, got) =
      finish_task-found recorded id row now status (some (task_type_of result.plan))
        (human_review_of approval) (escalation_count es) found in
    (
      store',
      finished,
      _,
      got,
      record {
        totals =
            AtSome-of (Totals es status (escalation_count es)) (get_task store' id)
              (AtSome-of (λ s. AtSome (Totals es status (escalation_count es)) (get_task s id)) _
                (finish_task-Totals id store recorded es now status _ _ _ fresh (
                  AtSome-of (Grown id _ _ _ store) (persist_all prices store id es)
                    (persist_all-Grown prices store id es) p))
                finished)
              got;
        task_type = refl;
        wall_clock = rw e refl;
        human_review = refl;
      },
    )
