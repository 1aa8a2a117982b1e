-- ===== src/Examples/Compiled.antt =====
-- The theorem on run.py, tracing/recorder.py and graph/build.py together, applied to a plan that a
-- human approves and that is then worked on and delivered.
use agent_orchestration_syst.Common.{
  ℕ, ◌≡◌, refl, true, false, none, some, [], ◌∷◌, get_or, concat, join, strip, take_chars,
}
use agent_orchestration_syst.Common.Dict.{lookup, assign, remove}
use agent_orchestration_syst.Schemas.{DecisionAction, value}
use agent_orchestration_syst.HumanLoop.Models.{PendingApproval, resolved}
use agent_orchestration_syst.HumanLoop.Queue.{ok, get, read, resolve, submit}
use agent_orchestration_syst.HumanLoop.Queue.Wait.{here}
use agent_orchestration_syst.Graph.State.{apply_update, merge_optional_dict}
use agent_orchestration_syst.Graph.World.{World, usage_entry}
use agent_orchestration_syst.Graph.Nodes.Planning
use agent_orchestration_syst.Graph.Nodes.Review
use agent_orchestration_syst.Graph.Nodes.Specialist
use agent_orchestration_syst.Graph.Nodes.Escalation
use agent_orchestration_syst.Graph.Nodes.Decision
use agent_orchestration_syst.Graph.Routing
use agent_orchestration_syst.Graph.Routing.{needs_human, payload}
use agent_orchestration_syst.Graph.Run
use agent_orchestration_syst.Graph.Run.{Run, start}
use agent_orchestration_syst.Graph.Run.Ends.{ended, invoke, run_on}
use agent_orchestration_syst.Graph.Run.Endings.{Outcome}
use agent_orchestration_syst.Graph.Run.Samples.{config, world_of}
use agent_orchestration_syst.Tracing.Store.{TaskRecord, TraceStore, get_task}
use agent_orchestration_syst.Runner.{Payload, conclude, entry_of}
use agent_orchestration_syst.Runner.Resumed.{Decided, done, more, resolved_with}
use agent_orchestration_syst.Runner.Traced.{returned, run_traced_task, TracedResult}
use agent_orchestration_syst.Runner.Traced.Row.{RowOf}
use agent_orchestration_syst.Runner.Traced.Recorded.{untraced}
use agent_orchestration_syst.Runner.Compiled.{
  compiled, compiled_app, result_of, resume, resume_all, state_result,
}
use agent_orchestration_syst.Runner.Compiled.Delivered.{run_traced_task-Outcome}
use agent_orchestration_syst.Examples.Queue.{codec, decision, empty, redis, Server}
use agent_orchestration_syst.Examples.Runner.{last_result, payload as sample_payload, wait}
use agent_orchestration_syst.Examples.Tracing.{prices}

abbrev first_run : Run
first_run = start "task" "u" "t-1" false

abbrev answers : ℕ → ℕ → ℕ → World
answers _ _ = world_of true "" DecisionAction.approve

abbrev no_result : TracedResult
no_result = record { invoked = last_result; trace_events = []; status = none; plan = none }

default_price :
    lookup "_default" prices
    ≡ some (record { input_per_million = 1_000_000; output_per_million = 3_000_000 })
unfolding lookup
default_price = refl

-- The result that is interrupted, and the result after the decision.
unfoldable first_stop : TracedResult
first_stop = get_or (compiled_app config answers 20 first_run []) no_result

unfoldable final : TracedResult
final = get_or (compiled_app config answers 20 first_run (decision ∷ [])) no_result

abbrev interruption : Payload
interruption = get_or first_stop.invoked.interrupt sample_payload

record Computed : Type 0 where
  given : compiled_app config answers 20 first_run [] ≡ some first_stop
  waits : first_stop.invoked.interrupt ≡ some interruption
  resumed : untraced (compiled_app config answers 20 first_run) (decision ∷ []) ≡ some final.invoked
  ends : final.invoked.interrupt ≡ none

computed : Computed
unfolding first_stop final compiled_app compiled resume_all resume result_of invoke run_on
    Escalation.interrupt_payload start needs_human payload value usage_entry apply_update
    merge_optional_dict lookup assign remove concat join strip take_chars Run.advance
    Run.advance_from Run.step_node Run.node_effects Run.merge_branches Run.run_branches
    Planning.intake Planning.plan_task Planning.any_sensitive Planning.deliver
    Planning.format_memories Planning.recalled Planning.reject_task Planning.remember
    Planning.synthesize Review.apply_review_feedback Review.notify_human Review.review
    Specialist.find_subtask Specialist.next_retry_count Specialist.run_specialist
    Escalation.human_escalation Escalation.trigger Escalation.plan_trigger Escalation.choose_trigger
    Escalation.request Escalation.review_trigger Escalation.source_text Escalation.stuck_by_count
    Escalation.stuck_trigger Decision.apply_human_decision Decision.approve_update
    Decision.decision_update Decision.index_from Decision.modify_update Decision.redo_or_all
    Decision.redo_update Decision.take_over_update Decision.taken_over Routing.next_of
    Routing.route_after_plan Routing.route_after_decision Routing.decide_next_batch
    Routing.deps_done Routing.readiness Routing.ready_ids Routing.route_after_review
    Routing.route_batch_of Routing.route_decision Routing.select Routing.stuck_ids
computed = record { given = refl; waits = refl; resumed = refl; ends = refl }

abbrev entry : PendingApproval
entry = entry_of "t-1" interruption 0

abbrev resolved_entry : PendingApproval
resolved_entry = record entry { status = resolved; decision = some decision; resolved_at = some 9 }

abbrev last_server : Server
last_server = wait.after (submit redis codec empty entry)

decided :
    Decided redis codec
      (untraced (compiled_app config answers 20 first_run))
      "t-1"
      []
      first_stop.invoked
      empty
      (wait ∷ [])
      (decision ∷ [])
      final.invoked
      last_server
decided =
    more interruption decision final.invoked computed.waits
      (resolved_with ((submit redis codec empty entry, 0) ∷ []) (here, tt)
        (submit redis codec empty entry) here decision 9 2 [])
      computed.resumed (done computed.ends)

found : get redis codec last_server "t-1" ≡ ok (some resolved_entry)
unfolding get submit resolve read lookup assign
found = refl

abbrev store : TraceStore
store = record { tasks = []; spans = [] }

run_traced_task-Outcome_example :
    (r : Run) × (compiled config answers 20 first_run (decision ∷ []) ≡ some (ended r))
    × Outcome r.state
    × (store' : TraceStore) × (run_traced_task redis codec prices
          (compiled_app config answers 20 first_run)
          "t-1"
          "u"
          "task"
          0
          10
          20
          empty
          store
          (wait ∷ [])
        ≡ returned (
          state_result none r,
          (conclude redis codec "t-1" 10 last_server (state_result none r).invoked).1,
          store',
        ))
    × (t : TaskRecord) × (get_task store' "t-1" ≡ some t)
    × RowOf (state_result none r) (some resolved_entry) 0 20 t
run_traced_task-Outcome_example =
    run_traced_task-Outcome redis codec prices _ default_price config answers 20 "task" "u" "t-1"
      false 0 10 20 empty last_server store (wait ∷ []) (decision ∷ []) first_stop final.invoked
      (some resolved_entry) tt computed.given decided found
