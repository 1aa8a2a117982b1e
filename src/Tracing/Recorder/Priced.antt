-- ===== src/Tracing/Recorder/Priced.antt =====
-- tracing/recorder.py and tracing/store.py: with a default price no recording raises, and a task
-- that was started is there to be finished.
use agent_orchestration_syst.Common.{
  ℕ, ◌≡◌, refl, String, not, Option, some, List, [], ◌∷◌, ◌++◌, ◌>>=◌, ◌==◌, arith, ◌∙◌, ap,
  AtSome-of, length, keep, eq_iff,
}
use agent_orchestration_syst.Common.Dict.{Dict, lookup}
use agent_orchestration_syst.Schemas.{ToolCallLog}
use agent_orchestration_syst.Graph.State.{TraceEvent, UsageEntry}
use agent_orchestration_syst.Tracing.Pricing.{Price, estimate_cost}
use agent_orchestration_syst.Tracing.Store.{
  TaskRecord, TaskStatus, TraceStore, add_span, close_task, find_task, finish_task, get_task,
  start_task,
}
use agent_orchestration_syst.Tracing.Recorder.{
  add_calls, cost_of, from_index, persist_all, persist_and_export, record_new_events, tool_calls,
}
use agent_orchestration_syst.Tracing.Recorder.Once.{from_index-length, persist_all-append}
use agent_orchestration_syst.Tracing.Recorder.Totals.{find-update}

bind-some :
    {A B : Type 0} (o : Option A) (f : A → Option B) {a : A} {b : B}
    → o ≡ some a
    → f a ≡ some b
    → (o >>= f) ≡ some b
bind-some o f {a} e k = rw (e, ◌>>=◌) k

add_calls-tasks :
    (store : TraceStore) (id : String) (e : TraceEvent) (calls : List ToolCallLog)
    → (add_calls store id e calls).tasks ≡ store.tasks
unfolding add_calls add_span
add_calls-tasks store id e [] = refl
add_calls-tasks store id e (call ∷ rest) =
    add_calls-tasks (add_span store id _ _ _ _ _ _ _ _ _ _) id e rest

module _ (prices : Dict Price) (default : Price) (h : lookup "_default" prices ≡ some default) where
  cost_of-some : (usage : List UsageEntry) → (cost : ℕ) × (cost_of prices usage ≡ some cost)
  unfolding cost_of estimate_cost
  cost_of-some [] = (0, refl)
  cost_of-some (u ∷ rest) =
      let (others, e) = cost_of-some rest in
      (_, bind-some _ _ (bind-some (lookup "_default" prices) _ h refl) (bind-some _ _ e refl))

  -- An event is recorded, and the rows of the tasks stay.
  persist_and_export-some :
      (store : TraceStore) (id : String) (e : TraceEvent)
      → (store' : TraceStore) × (persist_and_export prices store id e ≡ some store')
        × (store'.tasks ≡ store.tasks)
  unfolding persist_and_export add_span
  persist_and_export-some store id e =
      let (cost, priced) = cost_of-some e.usage in
      (_, bind-some _ _ priced refl, add_calls-tasks _ id e (tool_calls e.attributes))

  pub persist_all-some :
      (store : TraceStore) (id : String) (es : List TraceEvent)
      → (store' : TraceStore) × (persist_all prices store id es ≡ some store')
        × (store'.tasks ≡ store.tasks)
  unfolding persist_all
  persist_all-some store id [] = (store, refl, refl)
  persist_all-some store id (e ∷ rest) =
      let (first, p, same) = persist_and_export-some store id e in
      let (store', q, same') = persist_all-some first id rest in
      (store', bind-some _ _ p q, same' ∙ same)

  pub persist_all-tasks :
      (store store' : TraceStore) (id : String) (es : List TraceEvent)
      → persist_all prices store id es ≡ some store'
      → store'.tasks ≡ store.tasks
  persist_all-tasks store store' id es e =
      let (s, p, same) = persist_all-some store id es in
      AtSome-of (λ t. t.tasks ≡ store.tasks) _ (rw p same) e

  -- After some events were recorded, the new ones among more events are.
  pub record_new_events-some :
      (store so_far : TraceStore) (id : String) (before new events : List TraceEvent)
      → persist_all prices store id before ≡ some so_far
      → events ≡ before ++ new
      → (store' : TraceStore) × (persist_all prices store id events ≡ some store')
        × (record_new_events prices id (so_far, length before) events
            ≡ some (store', length events))
  unfolding record_new_events
  record_new_events-some store so_far id before new events p e =
      let (store', q, same) = persist_all-some so_far id new in
      (
        store',
        ap (persist_all prices store id) e
            ∙ persist_all-append prices store id before new
            ∙ bind-some _ _ p q,
        ap (λ es. persist_all prices so_far id es >>= λ s. some (s, length events))
              (ap (from_index (length before)) e ∙ from_index-length before new)
            ∙ bind-some _ _ q refl,
      )

find_task-last :
    (id : String) (tasks : List TaskRecord) (row : TaskRecord)
    → row.task_id ≡ id
    → find_task id (keep (λ t. not (t.task_id == id)) tasks ++ row ∷ []) ≡ some row
unfolding find_task
find_task-last id [] row e = ground (arith, e, eq_iff row.task_id id)
find_task-last id (t ∷ rest) row e = ground (arith, e, find_task-last id rest row e)

-- The row that `start_task` leaves.
pub start_task-found :
    (store : TraceStore) (id user_id task : String) (now : ℕ)
    → (row : TaskRecord) × (find_task id (start_task store id user_id task now).tasks ≡ some row)
      × (row.started_at ≡ now)
unfolding start_task
start_task-found store id user_id task now = (_, find_task-last id store.tasks _ refl, refl)

-- `finish_task` on a task that is there, and the row that it leaves.
pub finish_task-found :
    (store : TraceStore) (id : String) (row : TaskRecord) (now : ℕ) (status : TaskStatus)
    (task_type : Option String) (human_review escalations : ℕ)
    → find_task id store.tasks ≡ some row
    → (store' : TraceStore) × (finish_task store id now status task_type human_review escalations
        ≡ some store')
      × (get_task store' id
          ≡ some (
              close_task store.spans now row.started_at status task_type human_review escalations
                row))
unfolding finish_task close_task
finish_task-found store id row now status task_type human_review escalations found =
    let close =
      close_task store.spans now row.started_at status task_type human_review escalations in
    (
      _,
      bind-some _ _ found refl,
      find-update id close store.tasks (λ t. refl) ∙ bind-some _ _ found refl,
    )
