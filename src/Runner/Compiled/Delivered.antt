-- ===== src/Runner/Compiled/Delivered.antt =====
-- tracing/recorder.py, run.py and graph/build.py together: how a traced run of the graph ends.
use agent_orchestration_syst.Common.{
  ◌≢◌, ◌>>=◌, ℕ, ◌≡◌, refl, String, Bool, false, Option, none, some, List, [], ◌==◌, ◌∙◌, ap, arith,
  All, AtSome-of, subst,
}
use agent_orchestration_syst.Common.Dict.{Dict, lookup}
use agent_orchestration_syst.Schemas.{HumanDecision}
use agent_orchestration_syst.HumanLoop.Models.{PendingApproval}
use agent_orchestration_syst.HumanLoop.Store.{Codec, Redis}
use agent_orchestration_syst.HumanLoop.Queue.{ok, get}
use agent_orchestration_syst.Graph.World.{GraphConfig, World}
use agent_orchestration_syst.Graph.Nodes.Escalation.{interrupt_payload, source_text}
use agent_orchestration_syst.Graph.Run.{Run, start}
use agent_orchestration_syst.Graph.Run.Ends.{interrupted, ended, raised, Stopped}
use agent_orchestration_syst.Graph.Run.Endings.{Outcome}
use agent_orchestration_syst.Graph.Run.Outcome.{finish-Outcome}
use agent_orchestration_syst.Tracing.Pricing.{Price}
use agent_orchestration_syst.Tracing.Store.{TaskRecord, TraceStore, get_task}
use agent_orchestration_syst.Runner.{App, conclude, InvokeResult, Wait}
use agent_orchestration_syst.Runner.Resumed.{run_task-Decided, Decided, done, more}
use agent_orchestration_syst.Runner.Traced.{returned, run_traced_task, TracedResult}
use agent_orchestration_syst.Runner.Traced.Row.{RowOf}
use agent_orchestration_syst.Runner.Traced.Recorded.{run_traced_task-Decided, untraced}
use agent_orchestration_syst.Runner.Compiled.{compiled, compiled_app, result_of, state_result}
use agent_orchestration_syst.Runner.Compiled.Reached.{
  StopsAt, bind-inv, compiled-StopsAt, compiled_app-KeepsEvents,
}

Decided-ends :
    {S V : Type 0} {redis : Redis S V} {codec : Codec V} {app : App} {task_id : String}
    {decisions all : List HumanDecision} {result last : InvokeResult} {server end : S}
    {waits : List (Wait S)}
    → Decided redis codec app task_id decisions result server waits all last end
    → last.interrupt ≡ none
Decided-ends (done e) = e
Decided-ends (more payload d next e r given rest) = Decided-ends rest

-- A result without an interruption is that of a run that has ended.
result_of-ended :
    (c : GraphConfig) (stop : Stopped) (result : TracedResult)
    → result_of c stop ≡ some result
    → result.invoked.interrupt ≡ none
    → (r : Run) × (stop ≡ ended r) × (result ≡ state_result none r)
unfolding result_of
result_of-ended c raised result e h = absurd (ground (arith, e))
result_of-ended c (ended r) result e h =
    (r, refl, AtSome-of (λ x. x ≡ state_result none r) (some (state_result none r)) refl e)
result_of-ended c (interrupted r) result e h =
    let (p, found, given) = bind-inv (interrupt_payload c r.state) _ e in
    absurd (
      AtSome-of (λ (x : TracedResult). x.invoked.interrupt ≢ none)
        (some (state_result (some (record { escalation = p.1; source = source_text p.0 })) r))
        (λ k. ground (arith, k)) given h)

module _ {S V : Type 0} (redis : Redis S V) (codec : Codec V) (prices : Dict Price)
    (default : Price) (priced : lookup "_default" prices ≡ some default) (c : GraphConfig)
    (answers : ℕ → ℕ → ℕ → World) (fuel : ℕ) (task user_id task_id : String)
    (require_human_approval : Bool) where
  abbrev first_run : Run
  first_run = start task user_id task_id require_human_approval

  -- The run of a result without an interruption.
  ended_run :
      (decisions : List HumanDecision) (result : TracedResult)
      → compiled_app c answers fuel first_run decisions ≡ some result
      → result.invoked.interrupt ≡ none
      → (r : Run) × (compiled c answers fuel first_run decisions ≡ some (ended r))
        × Outcome r.state
        × (result ≡ state_result none r)
  unfolding compiled_app
  ended_run decisions result e h =
      let (stop, stopped, given) = bind-inv (compiled c answers fuel first_run decisions) _ e in
      let (r, at_end, same) = result_of-ended c stop result given h in
      let stopped' = stopped ∙ ap some at_end in
      let (reached, at) =
        AtSome-of (StopsAt c first_run) (compiled c answers fuel first_run decisions)
          (compiled-StopsAt c answers fuel first_run decisions) stopped' in
      (r, stopped', finish-Outcome c task user_id task_id require_human_approval r reached at, same)

  last_of :
      (o : Option TracedResult) (result : TracedResult) (last : InvokeResult)
      → o ≡ some result
      → (o >>= λ r. some r.invoked) ≡ some last
      → last.interrupt ≡ none
      → result.invoked.interrupt ≡ none
  last_of none result last e f h = absurd (ground (arith, e))
  last_of (some r) result last e f h =
      AtSome-of (λ (x : TracedResult). x.invoked.interrupt ≡ none) (some r)
        (AtSome-of (λ (i : InvokeResult). r.invoked.interrupt ≡ i.interrupt) (some r.invoked) refl f
          ∙ h)
        e

  -- A traced run of the graph, as `main` starts it for a task without spans, with a default price:
  -- if every interruption is at some time resolved in the queue and no invocation raises or lacks
  -- fuel, `run_traced_task` returns. The graph has then ended with the task delivered, with a final
  -- output, or rejected by the human; the result is its state, and the row of the task has its
  -- status, the sums over its events and the time of the review.
  pub run_traced_task-Outcome :
      (started utcnow now : ℕ) (server end : S) (store : TraceStore) (waits : List (Wait S))
      (all : List HumanDecision) (first : TracedResult) (last : InvokeResult)
      (approval : Option PendingApproval)
      → All (λ s. (s.task_id == task_id) ≡ false) store.spans
      → compiled_app c answers fuel first_run [] ≡ some first
      → Decided redis codec
          (untraced (compiled_app c answers fuel first_run))
          task_id
          []
          first.invoked
          server
          waits
          all
          last
          end
      → get redis codec end task_id ≡ ok approval
      → (r : Run) × (compiled c answers fuel first_run all ≡ some (ended r))
        × Outcome r.state
        × (store' : TraceStore) × (run_traced_task redis codec prices
              (compiled_app c answers fuel first_run)
              task_id
              user_id
              task
              started
              utcnow
              now
              server
              store
              waits
            ≡ returned (
              state_result none r,
              (conclude redis codec task_id utcnow end (state_result none r).invoked).1,
              store',
            ))
        × (t : TaskRecord) × (get_task store' task_id ≡ some t)
        × RowOf (state_result none r) approval started now t
  run_traced_task-Outcome started utcnow now server end store waits all first last approval fresh
        given decided found =
      let app = compiled_app c answers fuel first_run in
      let (result, result_of, store', ends, t, got, told) =
        run_traced_task-Decided redis codec prices default priced app
          (compiled_app-KeepsEvents c answers fuel first_run) task_id utcnow now user_id task
          started server end store waits all first last approval fresh given decided found in
      let (_, given_last) =
        run_task-Decided redis codec (untraced app) task_id utcnow server end waits all
          first.invoked last (ap (λ o. o >>= λ r. some r.invoked) given) decided in
      let (r, stopped, outcome, same) =
        ended_run all result result_of
          (last_of (app all) result last result_of given_last (Decided-ends decided)) in
      (
        r,
        stopped,
        outcome,
        store',
        ends
            ∙ ap
                (λ (x : TracedResult).
                  returned (x, (conclude redis codec task_id utcnow end x.invoked).1, store'))
                same,
        t,
        got,
        subst (λ (x : TracedResult). RowOf x approval started now t) same told,
      )
