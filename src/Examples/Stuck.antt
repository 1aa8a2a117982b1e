-- ===== src/Examples/Stuck.antt =====
-- The escalation of a subtask that fails too often, on states of the sample graph.
use agent_orchestration_syst.Common.{
  ◌≡◌, refl, true, false, none, some, [], ◌∷◌, get_or, arith, concat, strip, join, take_chars,
}
use agent_orchestration_syst.Common.Dict.{lookup, assign, remove, contains, Distinct, keys}
use agent_orchestration_syst.Schemas.{
  DecisionAction, EscalationLevel, packaged, value, SubtaskResult, EscalationRequest,
  stuck_subtask_ids,
}
use agent_orchestration_syst.Graph.State.{
  Node, Status, OrchestratorState, apply_update, merge_optional_dict,
}
use agent_orchestration_syst.Graph.Nodes.Effects.{Effects}
use agent_orchestration_syst.Graph.World.{usage_entry}
use agent_orchestration_syst.Graph.Nodes.Planning
use agent_orchestration_syst.Graph.Nodes.Review
use agent_orchestration_syst.Graph.Nodes.Escalation
use agent_orchestration_syst.Graph.Nodes.Escalation.{stuck_by_count}
use agent_orchestration_syst.Graph.Nodes.Decision
use agent_orchestration_syst.Graph.Nodes.Decision.{redo_or_all}
use agent_orchestration_syst.Graph.Routing
use agent_orchestration_syst.Graph.Routing.{to, next_of, ready_ids, stuck_ids}
use agent_orchestration_syst.Graph.Routing.Stuck.{human_escalation-stuck_ids}
use agent_orchestration_syst.Graph.Routing.Complete.{InPlan}
use agent_orchestration_syst.Graph.Run.{start}
use agent_orchestration_syst.Graph.Run.LateStuck.{ReviewAsked, stuck_after_review}
use agent_orchestration_syst.Graph.Run.Samples.{config, plan_of, result}
use agent_orchestration_syst.Examples.States.{planned, all_done}
use agent_orchestration_syst.Examples.Redo.{redo, sent_back, effects, asked_of}

-- After a review the first subtask fails for the last time.
unfoldable pub stuck : OrchestratorState
unfolding sent_back all_done planned
stuck = record sent_back {
  completed = ("st-1", result false "st-1") ∷ ("st-2", result true "st-2") ∷ [];
  retry_counts = ("st-1", 9) ∷ [];
}

unfoldable stuck_asked : Effects
stuck_asked = effects (Escalation.human_escalation config (asked_of DecisionAction.approve) stuck)

unfoldable stuck_decided : Effects
stuck_decided = effects (
    Decision.apply_human_decision config (asked_of DecisionAction.approve)
      (apply_update stuck stuck_asked.update))

unfoldable stuck_combined : Effects
stuck_combined = effects (
    Planning.synthesize config (asked_of DecisionAction.approve)
      (apply_update (apply_update stuck stuck_asked.update) stuck_decided.update))

unfoldable stuck_delivered : Effects
stuck_delivered = effects (
    Planning.deliver config (asked_of DecisionAction.approve) (
      apply_update (apply_update (apply_update stuck stuck_asked.update) stuck_decided.update)
        stuck_combined.update))

-- What these states compute to.
record Computed : Type 0 where
  stuck_reviewed : stuck.review ≡ some redo
  stuck_first : contains "st-1" (stuck_ids config stuck (plan_of false)) ≡ true
  stuck_asks :
      Escalation.human_escalation config (asked_of DecisionAction.approve) stuck ≡ some stuck_asked
  stuck_decides :
      Decision.apply_human_decision config
        (asked_of DecisionAction.approve)
        (apply_update stuck stuck_asked.update)
      ≡ some stuck_decided
  stuck_combines :
      Planning.synthesize config
        (asked_of DecisionAction.approve)
        (apply_update (apply_update stuck stuck_asked.update) stuck_decided.update)
      ≡ some stuck_combined
  stuck_delivers :
      Planning.deliver config (asked_of DecisionAction.approve) (
        apply_update
          (apply_update (apply_update stuck stuck_asked.update) stuck_decided.update)
          stuck_combined.update)
      ≡ some stuck_delivered

computed : Computed
unfolding planned all_done sent_back stuck stuck_asked stuck_decided stuck_combined stuck_delivered
    Planning.synthesize Planning.deliver Planning.remember start value usage_entry apply_update
    merge_optional_dict lookup assign remove concat join strip take_chars Planning.any_sensitive
    Review.apply_review_feedback Escalation.human_escalation Escalation.trigger
    Escalation.plan_trigger Escalation.choose_trigger Escalation.request Escalation.review_trigger
    Escalation.source_text Escalation.stuck_by_count Escalation.stuck_trigger
    Decision.apply_human_decision Decision.approve_update Decision.decision_update
    Decision.index_from Decision.modify_update Decision.redo_or_all Decision.redo_update
    Decision.take_over_update Decision.taken_over Routing.deps_done Routing.readiness ready_ids
    stuck_ids Routing.select
computed = record {
  stuck_reviewed = refl;
  stuck_first = refl;
  stuck_asks = refl;
  stuck_decides = refl;
  stuck_combines = refl;
  stuck_delivers = refl;
}

stuck_after_review_example :
    let s1 = apply_update stuck stuck_asked.update in
    let s2 = apply_update s1 stuck_decided.update in
    let s3 = apply_update s2 stuck_combined.update in
    let s4 = apply_update s3 stuck_delivered.update in
    ReviewAsked stuck s1 (asked_of DecisionAction.approve).decision
    × (next_of config Node.apply_human_decision s2 ≡ some (to Node.synthesize))
    × (next_of config Node.synthesize s3 ≡ some (to Node.deliver))
    × (s4.status ≡ some Status.completed)
    × ((r : SubtaskResult) × (lookup "st-1" s4.completed ≡ some r) × (r.success ≡ false))
stuck_after_review_example =
    stuck_after_review config (asked_of DecisionAction.approve) (asked_of DecisionAction.approve)
      (asked_of DecisionAction.approve) (asked_of DecisionAction.approve) stuck (plan_of false) redo
      stuck_asked stuck_decided stuck_combined stuck_delivered "st-1" computed.stuck_reviewed
      computed.stuck_first refl computed.stuck_asks computed.stuck_decides computed.stuck_combines
      computed.stuck_delivers

-- The first subtask has failed for the last time, and no review was made.
unfoldable exhausted : OrchestratorState
unfolding stuck sent_back all_done planned
exhausted = record stuck { review = none }

exhausted-InPlan : InPlan exhausted (plan_of false)
unfolding exhausted stuck sent_back all_done planned start Decision.index_from assign
exhausted-InPlan = record { distinct = (refl, (refl, tt)); within = λ x h. h }

exhausted-Distinct : Distinct (keys exhausted.retry_counts)
unfolding exhausted stuck
exhausted-Distinct = (refl, tt)

abbrev sample_request : EscalationRequest
sample_request = record {
  level = EscalationLevel.take_over;
  reason = "";
  context = packaged (record {
    task = "";
    user_id = none;
    plan = none;
    completed = [];
    review = none;
    memory_context = "";
    stuck_subtask_ids = [];
  });
}

unfoldable exhausted_asked : Effects
unfolding exhausted
exhausted_asked =
    effects (Escalation.human_escalation config (asked_of DecisionAction.take_over) exhausted)

unfoldable exhausted_request : EscalationRequest
unfolding exhausted_asked
exhausted_request = get_or (apply_update exhausted exhausted_asked.update).escalation sample_request

-- What the escalation of that state computes to.
record Exhausted : Type 0 where
  unreviewed : exhausted.review ≡ none
  asks :
      Escalation.human_escalation config (asked_of DecisionAction.take_over) exhausted
      ≡ some exhausted_asked
  escalated : (apply_update exhausted exhausted_asked.update).escalation ≡ some exhausted_request

exhausted_computed : Exhausted
unfolding exhausted exhausted_asked exhausted_request stuck sent_back all_done planned start
    apply_update Escalation.human_escalation Escalation.trigger Escalation.choose_trigger
    Escalation.stuck_trigger Escalation.request Escalation.stuck_by_count Escalation.source_text
    concat
exhausted_computed = record { unreviewed = refl; asks = refl; escalated = refl }

human_escalation-stuck_ids_example :
    contains "st-1" (stuck_subtask_ids exhausted_request.context)
    ≡ contains "st-1" (stuck_ids config exhausted (plan_of false))
human_escalation-stuck_ids_example =
    human_escalation-stuck_ids config (asked_of DecisionAction.take_over) exhausted (plan_of false)
      exhausted_asked exhausted_request "st-1" exhausted-Distinct exhausted-InPlan (omega arith)
      exhausted_computed.unreviewed exhausted_computed.asks exhausted_computed.escalated
