-- ===== src/Examples/Runs.antt =====
-- The theorems on runs of graph/build.py, applied to runs of the sample graph.
use agent_orchestration_syst.Common.{
  ℕ, ◌≡◌, refl, Bool, true, false, some, [], ◌∷◌, inl, get_or, concat, join, strip, take_chars,
}
use agent_orchestration_syst.Common.Dict.{lookup, assign, remove}
use agent_orchestration_syst.Schemas.{DecisionAction, ExecutionPlan, value}
use agent_orchestration_syst.Graph.State.{Node, apply_update, merge_optional_dict}
use agent_orchestration_syst.Graph.World.{usage_entry}
use agent_orchestration_syst.Graph.Nodes.Planning
use agent_orchestration_syst.Graph.Nodes.Review
use agent_orchestration_syst.Graph.Nodes.Specialist
use agent_orchestration_syst.Graph.Nodes.Escalation
use agent_orchestration_syst.Graph.Nodes.Decision
use agent_orchestration_syst.Graph.Routing
use agent_orchestration_syst.Graph.Routing.{to, send, finish, needs_human, payload}
use agent_orchestration_syst.Graph.Routing.Complete.{AllSucceeded}
use agent_orchestration_syst.Graph.Run
use agent_orchestration_syst.Graph.Run.{Run, start}
use agent_orchestration_syst.Graph.Run.Ends.{invoke, Stopped}
use agent_orchestration_syst.Graph.Run.Ends.Invocations.{invoke-Stops}
use agent_orchestration_syst.Graph.Run.Events.{Extends, Reach-Extends}
use agent_orchestration_syst.Graph.Run.Approval.{IsAccepted}
use agent_orchestration_syst.Graph.Run.Approval.Guarded.{work-IsAccepted}
use agent_orchestration_syst.Graph.Run.Shape.Reached.{review-AllSucceeded}
use agent_orchestration_syst.Graph.Run.Endings.{Outcome}
use agent_orchestration_syst.Graph.Run.Outcome.{finish-Outcome}
use agent_orchestration_syst.Graph.Run.Samples.{
  config, plan_of, world_of, advance_many, advance_many-Reach,
}

abbrev first : Run
first = start "task" "u" "t-1" false

-- The sample run after some supersteps.
unfoldable sample : ℕ → (sensitive : Bool) → Run
sample n sensitive =
    get_or (advance_many n config (world_of sensitive "" DecisionAction.approve) first) first

-- What the sample runs compute to.
record Computed : Type 0 where
  sent :
      advance_many 5 config (world_of true "" DecisionAction.approve) first ≡ some (sample 5 true)
  sent_at : (sample 5 true).at ≡ send (payload (sample 5 true).state (plan_of true) "st-1" ∷ [])
  sent_plan : (sample 5 true).state.plan ≡ some (plan_of true)
  sent_need : needs_human config (sample 5 true).state (plan_of true) ≡ true
  reviewed :
      advance_many 7 config (world_of false "" DecisionAction.approve) first ≡ some (sample 7 false)
  reviewed_at : (sample 7 false).at ≡ to Node.review
  ended :
      advance_many 10 config (world_of false "" DecisionAction.approve) first
      ≡ some (sample 10 false)
  ended_at : (sample 10 false).at ≡ finish

computed : Computed
unfolding sample advance_many start needs_human payload value usage_entry apply_update
    merge_optional_dict lookup assign remove concat join strip take_chars Run.advance
    Run.advance_from Run.step_node Run.node_effects Run.merge_branches Run.run_branches
    Planning.intake Planning.plan_task Planning.any_sensitive Planning.deliver
    Planning.format_memories Planning.recalled Planning.reject_task Planning.remember
    Planning.synthesize Review.apply_review_feedback Review.notify_human Review.review
    Specialist.find_subtask Specialist.next_retry_count Specialist.run_specialist
    Escalation.human_escalation Escalation.trigger Escalation.plan_trigger Escalation.choose_trigger
    Escalation.request Escalation.review_trigger Escalation.source_text Escalation.stuck_by_count
    Escalation.stuck_trigger Decision.apply_human_decision Decision.approve_update
    Decision.decision_update Decision.index_from Decision.modify_update Decision.redo_or_all
    Decision.redo_update Decision.take_over_update Decision.taken_over Routing.next_of
    Routing.route_after_plan Routing.route_after_decision Routing.decide_next_batch
    Routing.deps_done Routing.readiness Routing.ready_ids Routing.route_after_review
    Routing.route_batch_of Routing.route_decision Routing.select Routing.stuck_ids
computed = record {
  sent = refl;
  sent_at = refl;
  sent_plan = refl;
  sent_need = refl;
  reviewed = refl;
  reviewed_at = refl;
  ended = refl;
  ended_at = refl;
}

work-IsAccepted_example : IsAccepted (sample 5 true).state
work-IsAccepted_example =
    work-IsAccepted config "task" "u" "t-1" false (sample 5 true)
      (payload (sample 5 true).state (plan_of true) "st-1" ∷ []) (plan_of true)
      (advance_many-Reach 5 config (world_of true "" DecisionAction.approve) first computed.sent)
      (inl computed.sent_at) computed.sent_plan computed.sent_need

review-AllSucceeded_example :
    (plan : ExecutionPlan) × ((sample 7 false).state.plan ≡ some plan)
    × AllSucceeded (sample 7 false).state plan
review-AllSucceeded_example =
    review-AllSucceeded config "task" "u" "t-1" false (sample 7 false)
      (advance_many-Reach 7 config (world_of false "" DecisionAction.approve) first
        computed.reviewed)
      computed.reviewed_at

finish-Outcome_example : Outcome (sample 10 false).state
finish-Outcome_example =
    finish-Outcome config "task" "u" "t-1" false (sample 10 false)
      (advance_many-Reach 10 config (world_of false "" DecisionAction.approve) first computed.ended)
      computed.ended_at

Reach-Extends_example : Extends first (sample 5 true)
Reach-Extends_example =
    Reach-Extends config first (sample 5 true)
      (advance_many-Reach 5 config (world_of true "" DecisionAction.approve) first computed.sent)

starts : first.at ≡ to Node.intake
unfolding start
starts = refl

invoke-Stops_example :
    (fuel : ℕ) × (stop : Stopped) × (invoke config
        (λ _. world_of true "" DecisionAction.approve)
        fuel
        first
      ≡ some stop)
invoke-Stops_example =
    invoke-Stops config (λ _. world_of true "" DecisionAction.approve) first Node.intake starts
