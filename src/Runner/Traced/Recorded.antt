-- ===== src/Runner/Traced/Recorded.antt =====
-- tracing/recorder.py: a traced run ends as the run does, and its row tells of it.
use agent_orchestration_syst.Common.{
  none, ◌>>=◌, ℕ, ◌≡◌, refl, String, false, Option, some, List, [], ◌∷◌, ◌++◌, length, ◌==◌, ◌∙◌,
  All, arith, ap,
}
use agent_orchestration_syst.Common.Dict.{Dict, lookup}
use agent_orchestration_syst.Schemas.{HumanDecision}
use agent_orchestration_syst.HumanLoop.Models.{PendingApproval}
use agent_orchestration_syst.HumanLoop.Store.{Codec, Redis}
use agent_orchestration_syst.HumanLoop.Queue.{ok, get, submit}
use agent_orchestration_syst.Graph.State.{TraceEvent}
use agent_orchestration_syst.Tracing.Pricing.{Price}
use agent_orchestration_syst.Tracing.Store.{
  find_task, TaskRecord, TraceStore, finish_task, get_task, start_task,
}
use agent_orchestration_syst.Tracing.Recorder.{escalation_count, persist_all, record_new_events}
use agent_orchestration_syst.Tracing.Recorder.Priced.{
  persist_all-tasks, record_new_events-some, start_task-found,
}
use agent_orchestration_syst.Runner.{App, InvokeResult, Payload, conclude, entry_of, Wait}
use agent_orchestration_syst.Runner.Resumed.{Decided, ResolvedWith, done, more, waited}
use agent_orchestration_syst.Runner.Traced.Row.{RowOf, finished-RowOf}
use agent_orchestration_syst.Runner.Traced.{
  returned, finish_traced, human_review_of, run_traced_task, status_of, task_type_of, traced_loop,
  TracedApp, TracedResult,
}

-- The runs of the graph without their trace.
abbrev pub untraced : TracedApp → App
untraced app decisions = app decisions >>= λ r. some r.invoked

-- A resumed run keeps the events that it has.
abbrev pub KeepsEvents : TracedApp → Type 0
KeepsEvents app =
    (decisions : List HumanDecision) (d : HumanDecision) (result next : TracedResult)
    → app decisions ≡ some result
    → app (decisions ++ d ∷ []) ≡ some next
    → (new : List TraceEvent) × (next.trace_events ≡ result.trace_events ++ new)

traced_of :
    (o : Option TracedResult) {invoked : InvokeResult}
    → (o >>= λ r. some r.invoked) ≡ some invoked
    → (result : TracedResult) × (o ≡ some result) × (result.invoked ≡ invoked)
traced_of none e = ground (arith, e)
traced_of (some result) e = (result, refl, ground (arith, e))

module _ {S V : Type 0} (redis : Redis S V) (codec : Codec V) (prices : Dict Price)
    (default : Price) (h : lookup "_default" prices ≡ some default) (app : TracedApp)
    (keeps : KeepsEvents app) (task_id : String) (utcnow now : ℕ) where
  -- One turn of the loop, where the entry is resolved with a decision.
  step_of :
      (decisions : List HumanDecision) (result next : TracedResult) (server : S)
      (so_far : TraceStore × ℕ) {so_far' : TraceStore × ℕ} (w : Wait S) (waits : List (Wait S))
      (payload : Payload) (d : HumanDecision)
      → result.invoked.interrupt ≡ some payload
      → ResolvedWith redis codec
          (submit redis codec server (entry_of task_id payload w.utcnow))
          task_id
          (w.polls (submit redis codec server (entry_of task_id payload w.utcnow)))
          d
      → app (decisions ++ d ∷ []) ≡ some next
      → record_new_events prices task_id so_far next.trace_events ≡ some so_far'
      → traced_loop redis codec prices app task_id utcnow now decisions result server so_far
          (w ∷ waits)
        ≡ traced_loop redis codec prices app task_id utcnow now
            (decisions ++ d ∷ [])
            next
            (w.after (submit redis codec server (entry_of task_id payload w.utcnow)))
            so_far'
            waits
  unfolding traced_loop
  step_of decisions result next server so_far w waits payload d e r resumed recorded =
      rw (e, waited redis codec server task_id payload w.utcnow r, resumed, recorded, traced_loop)
        refl

  -- What the recorder has when the run goes on is what one recording of all events would give.
  traced_loop-Decided :
      (store so_far : TraceStore) {decisions all : List HumanDecision} (result : TracedResult)
      {invoked last : InvokeResult} {server end : S} {waits : List (Wait S)}
      → app decisions ≡ some result
      → result.invoked ≡ invoked
      → persist_all prices store task_id result.trace_events ≡ some so_far
      → Decided redis codec (untraced app) task_id decisions invoked server waits all last end
      → (result' : TracedResult) × (app all ≡ some result')
        × (recorded : TraceStore) × (persist_all prices store task_id result'.trace_events
            ≡ some recorded)
        × (traced_loop redis codec prices app task_id utcnow now decisions result server
              (so_far, length result.trace_events)
              waits
            ≡ finish_traced redis codec task_id utcnow now end recorded result')
  unfolding traced_loop
  traced_loop-Decided store so_far result given same p (done e) =
      (result, given, so_far, p, ground (arith, e, same))
  traced_loop-Decided store so_far {decisions} result given same p
        (more {server = server} {w = w} {waits = waits} payload d invoked' e r given' rest) =
      let (next, resumed, same') = traced_of (app (decisions ++ d ∷ [])) given' in
      let (new, grown) = keeps decisions d result next given resumed in
      let (so_far', q, recorded) =
        record_new_events-some prices default h store so_far task_id result.trace_events new
          next.trace_events p grown in
      let (result', last, stored, all_recorded, ends) =
        traced_loop-Decided store so_far' next resumed same' q rest in
      (
        result',
        last,
        stored,
        all_recorded,
        step_of decisions result next server (so_far, length result.trace_events) w waits payload d
              (ap (λ i. i.interrupt) same ∙ e) r resumed recorded
            ∙ ends,
      )

  run_of :
      (user_id task : String) (started : ℕ) (store : TraceStore) (result : TracedResult)
      {first : TraceStore} {n : ℕ} (server : S) (waits : List (Wait S))
      → app [] ≡ some result
      → record_new_events prices task_id
          (start_task store task_id user_id task started, 0)
          result.trace_events
        ≡ some (first, n)
      → run_traced_task redis codec prices app task_id user_id task started utcnow now server store
          waits
        ≡ traced_loop redis codec prices app task_id utcnow now [] result server (first, n) waits
  unfolding run_traced_task
  run_of user_id task started store result server waits given e =
      rw (given, e, run_traced_task) refl

  finish_of :
      (end : S) (result : TracedResult) (recorded : TraceStore) {store' : TraceStore}
      {approval : Option PendingApproval}
      → get redis codec end task_id ≡ ok approval
      → finish_task recorded task_id now
          (status_of result.status)
          (some (task_type_of result.plan))
          (human_review_of approval)
          (escalation_count result.trace_events)
        ≡ some store'
      → finish_traced redis codec task_id utcnow now end recorded result
        ≡ returned (result, (conclude redis codec task_id utcnow end result.invoked).1, store')
  unfolding finish_traced
  finish_of end result recorded found finished = rw (found, finished, finish_traced) refl

  -- If every interruption of a run is at some time resolved in the queue, no invocation raises,
  -- each resumption keeps the events and there is a default price, then `run_traced_task` of a task
  -- without spans returns the result and the server that `run_task` ends with, whose entry can be
  -- read, and a store whose row of the task tells of that result and that entry.
  pub run_traced_task-Decided :
      (user_id task : String) (started : ℕ) (server end : S) (store : TraceStore)
      (waits : List (Wait S)) (all : List HumanDecision) (first : TracedResult)
      (last : InvokeResult) (approval : Option PendingApproval)
      → All (λ s. (s.task_id == task_id) ≡ false) store.spans
      → app [] ≡ some first
      → Decided redis codec (untraced app) task_id [] first.invoked server waits all last end
      → get redis codec end task_id ≡ ok approval
      → (result : TracedResult) × (app all ≡ some result)
        × (store' : TraceStore) × (run_traced_task redis codec prices app task_id user_id task
              started utcnow now server store waits
            ≡ returned (result, (conclude redis codec task_id utcnow end result.invoked).1, store'))
        × (t : TaskRecord) × (get_task store' task_id ≡ some t)
        × RowOf result approval started now t
  unfolding persist_all start_task
  run_traced_task-Decided user_id task started server end store waits all first last approval fresh
        given decided found =
      let begun = start_task store task_id user_id task started in
      let (row, there, at) = start_task-found store task_id user_id task started in
      let events = first.trace_events in
      let (stored, p, recorded_first) =
        record_new_events-some prices default h begun begun task_id [] events events refl refl in
      let (result, result_of, recorded, q, ends) =
        traced_loop-Decided begun stored first given refl p decided in
      let (store', finished, t, got, told) =
        finished-RowOf task_id begun recorded row result approval started now fresh at
          (ap (find_task task_id) (persist_all-tasks prices default h begun recorded task_id _ q)
            ∙ there)
          prices q in
      (
        result,
        result_of,
        store',
        run_of user_id task started store first server waits given recorded_first
            ∙ ends
            ∙ finish_of end result recorded found finished,
        t,
        got,
        told,
      )
