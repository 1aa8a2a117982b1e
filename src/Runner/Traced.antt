-- ===== src/Runner/Traced.antt =====
-- tracing/recorder.py: `run_traced_task` with an approval queue, the loop of run.py's `run_task`
-- that also records what each result of the graph adds to the trace. A time is a number of
-- nanoseconds of a clock that does not go back.
pub mod Row
pub mod Recorded
use agent_orchestration_syst.Common.{
  ℕ, ◌-◌, String, Option, none, some, List, [], ◌∷◌, ◌++◌, map, join, sorted_set,
}
use agent_orchestration_syst.Common.Dict.{Dict}
use agent_orchestration_syst.Schemas.{ExecutionPlan, HumanDecision, value}
use agent_orchestration_syst.HumanLoop.Models.{PendingApproval}
use agent_orchestration_syst.HumanLoop.Store.{Codec, Redis}
use agent_orchestration_syst.HumanLoop.Queue.{ok, raise, Error, get, submit, wait_for_decision}
use agent_orchestration_syst.Graph.State.{Status, TraceEvent}
use agent_orchestration_syst.Tracing.Pricing.{Price}
use agent_orchestration_syst.Tracing.Store.{
  ended, unknown, TaskStatus, TraceStore, finish_task, start_task,
}
use agent_orchestration_syst.Tracing.Recorder.{escalation_count, record_new_events}
use agent_orchestration_syst.Runner.{conclude, entry_of, InvokeResult, Wait}

-- What `app.invoke` gives, as far as the recorder reads it.
pub record TracedResult : Type 0 where
  pub invoked : InvokeResult
  pub trace_events : List TraceEvent
  pub status : Option Status
  pub plan : Option ExecutionPlan

-- The result after the run was resumed with some decisions, in order, or none where it raises.
abbrev pub TracedApp : Type 0
TracedApp = List HumanDecision → Option TracedResult

-- How a traced run stands: it waits, it raised in the queue, the graph or the store, or it
-- returned.
pub data Traced (A : Type 0) : Type 0 where
  waiting : Traced A
  queue_error : Error → Traced A
  graph_error store_error : Traced A
  returned : A → Traced A

-- `result.get("status", "unknown")`
abbrev pub status_of : Option Status → TaskStatus
status_of none = unknown
status_of (some status) = ended status

-- `"+".join(sorted({st.specialist.value for st in plan.subtasks})) if plan else "unknown"`
unfoldable pub task_type_of : Option ExecutionPlan → String
task_type_of none = "unknown"
task_type_of (some plan) = join "+" (sorted_set (map (λ st. value st.specialist) plan.subtasks))

-- `human_review_ms`, from the entry that the queue has at the end.
abbrev pub human_review_of : Option PendingApproval → ℕ
human_review_of none = 0
human_review_of (some approval) = elim approval.resolved_at [
  | none ↦ 0
  | some resolved_at ↦ resolved_at - approval.created_at
]

module _ {S V : Type 0} (redis : Redis S V) (codec : Codec V) where
  -- The end of `run_traced_task`: the time of the review, the notification and the totals.
  unfoldable pub finish_traced :
      (task_id : String)
      → (utcnow now : ℕ) → S
      → TraceStore
      → TracedResult
      → Traced (TracedResult × S × TraceStore)
  finish_traced task_id utcnow now server store result = elim (get redis codec server task_id) [
    | raise e ↦ queue_error e
    | ok approval ↦
        elim (finish_task store task_id now (status_of result.status)
          (some (task_type_of result.plan)) (human_review_of approval)
          (escalation_count result.trace_events)) [
            | none ↦ store_error
            | some store' ↦
                returned
                  (result, (conclude redis codec task_id utcnow server result.invoked).1, store')
          ]
  ]

module _ {S V : Type 0} (redis : Redis S V) (codec : Codec V) (prices : Dict Price) where
  -- The loop over the interruptions, with the result that it tests, the store and `recorded`.
  unfoldable pub traced_loop :
      TracedApp
      → (task_id : String) → (utcnow now : ℕ) → List HumanDecision
      → TracedResult
      → S
      → TraceStore × ℕ
      → List (Wait S)
      → Traced (TracedResult × S × TraceStore)
  unfolding finish_traced
  traced_loop app task_id utcnow now decisions result server so_far [] =
      elim result.invoked.interrupt [
        | none ↦ finish_traced redis codec task_id utcnow now server so_far.0 result
        | some payload ↦ waiting
      ]
  traced_loop app task_id utcnow now decisions result server so_far (w ∷ waits) =
      elim result.invoked.interrupt [
        | none ↦ finish_traced redis codec task_id utcnow now server so_far.0 result
        | some payload ↦
            let submitted = submit redis codec server (entry_of task_id payload w.utcnow) in
            elim (wait_for_decision redis codec task_id none (w.polls submitted)) [
              | none ↦ waiting
              | some (raise e) ↦ queue_error e
              | some (ok decision) ↦ elim (app (decisions ++ decision ∷ [])) [
                | none ↦ graph_error
                | some next ↦ elim (record_new_events prices task_id so_far next.trace_events) [
                  | none ↦ store_error
                  | some so_far' ↦
                      traced_loop app task_id utcnow now (decisions ++ decision ∷ []) next
                        (w.after submitted) so_far' waits
                ]
              ]
            ]
      ]

  -- `run_traced_task`
  unfoldable pub run_traced_task :
      TracedApp
      → (task_id user_id task : String) → (started utcnow now : ℕ) → S
      → TraceStore
      → List (Wait S)
      → Traced (TracedResult × S × TraceStore)
  unfolding traced_loop
  run_traced_task app task_id user_id task started utcnow now server store waits = elim (app []) [
    | none ↦ graph_error
    | some result ↦
        elim (record_new_events prices task_id (start_task store task_id user_id task started, 0)
          result.trace_events) [
            | none ↦ store_error
            | some so_far ↦ traced_loop app task_id utcnow now [] result server so_far waits
          ]
  ]
