-- ===== src/Graph/Run/LateStuck.antt =====
-- What graph/build.py does with a subtask that fails too often after a review was made.
use agent_orchestration_syst.Common.{
  [], ◌≡◌, String, true, false, some, arith, inl, inr, ap, Option-cases, ◌∙◌,
}
use agent_orchestration_syst.Common.Dict.{contains, lookup}
use agent_orchestration_syst.Schemas.{
  DecisionAction, EscalationRequest, ExecutionPlan, HumanDecision, ReviewResult, SubtaskResult,
  stuck_subtask_ids,
}
use agent_orchestration_syst.Graph.State.{
  EscalationSource, Status, apply_human_decision, synthesize, deliver, OrchestratorState,
  apply_update, merge_optional_dict,
}
use agent_orchestration_syst.Graph.World.{GraphConfig, World}
use agent_orchestration_syst.Graph.Nodes.Effects.{Effects}
use agent_orchestration_syst.Graph.Nodes.Planning
use agent_orchestration_syst.Graph.Nodes.Redo.{is_review_source}
use agent_orchestration_syst.Graph.Nodes.Escalation
use agent_orchestration_syst.Graph.Nodes.Escalation.{
  trigger, choose_trigger, review_trigger, request,
}
use agent_orchestration_syst.Graph.Nodes.Decision
use agent_orchestration_syst.Graph.Nodes.Decision.{by_id, approve_update}
use agent_orchestration_syst.Graph.Routing.{to, next_of, route_after_decision, stuck_ids, readiness}
use agent_orchestration_syst.Graph.Routing.Batch.{contains-stuck_ids}

-- The state after an escalation that is a matter of the review and tells of no stuck subtask.
pub record ReviewAsked (s s' : OrchestratorState) (decision : HumanDecision) : Type 0 where
  kept : s'.completed ≡ s.completed
  pub asked : EscalationSource
  pub source : s'.escalation_source ≡ some asked
  pub of_review : is_review_source asked ≡ true
  pub request : EscalationRequest
  pub escalation : s'.escalation ≡ some request
  pub none_stuck : stuck_subtask_ids request.context ≡ []
  held : s'.human_decision ≡ some decision

trigger-reviewed :
    (c : GraphConfig) (s : OrchestratorState) (result : ReviewResult)
    → s.review ≡ some result
    → trigger c s ≡ some (review_trigger c s result)
unfolding trigger choose_trigger
trigger-reviewed c s result h = ap (choose_trigger c s s.completed) h

human_escalation-ReviewAsked :
    (c : GraphConfig) (w : World) (s : OrchestratorState) (result : ReviewResult) (e : Effects)
    → s.review ≡ some result
    → Escalation.human_escalation c w s ≡ some e
    → ReviewAsked s (apply_update s e.update) w.decision
unfolding Escalation.human_escalation apply_update merge_optional_dict
human_escalation-ReviewAsked c w s result e h done =
    let t = trigger-reviewed c s result h in
    record {
      kept = ground arith;
      asked = (review_trigger c s result).source;
      source = ground arith;
      of_review = unfold review_trigger in ground arith;
      request = request s (review_trigger c s result);
      escalation = ground arith;
      none_stuck = unfold request review_trigger in ground arith;
      held = ground arith;
    }

approve-ReviewAsked :
    (c : GraphConfig) (w : World) (s s' : OrchestratorState) (decision : HumanDecision)
    (e : Effects)
    → ReviewAsked s s' decision
    → decision.action ≡ DecisionAction.approve
    → Decision.apply_human_decision c w s' ≡ some e
    → (next_of c apply_human_decision (apply_update s' e.update) ≡ some (to synthesize))
      × ((apply_update s' e.update).completed ≡ s.completed)
unfolding Decision.apply_human_decision approve_update apply_update merge_optional_dict next_of
    route_after_decision
approve-ReviewAsked c w s s' decision e h a done = (ground arith, ground arith)

stuck-failed :
    (c : GraphConfig) (s : OrchestratorState) (plan : ExecutionPlan) (id : String)
    → contains id (stuck_ids c s plan) ≡ true
    → (r : SubtaskResult) × (lookup id s.completed ≡ some r) × (r.success ≡ false)
unfolding readiness
stuck-failed c s plan id h = elim (Option-cases (lookup id (by_id plan))) [
  | inl e ↦ absurd (ground (arith, contains-stuck_ids c s plan id))
  | inr (t, e) ↦ elim (Option-cases (lookup id s.completed)) [
    | inl f ↦ absurd (ground (arith, contains-stuck_ids c s plan id))
    | inr (r, f) ↦ (r, f, ground (arith, contains-stuck_ids c s plan id))
  ]
]

-- The two nodes after an approval keep the results and complete the task.
delivered-completed :
    (c : GraphConfig) (w w' : World) (s : OrchestratorState) (e e' : Effects)
    → Planning.synthesize c w s ≡ some e
    → Planning.deliver c w' (apply_update s e.update) ≡ some e'
    → let s' = apply_update s e.update in
      (next_of c synthesize s' ≡ some (to deliver))
      × ((apply_update s' e'.update).status ≡ some Status.completed)
      × ((apply_update s' e'.update).completed ≡ s.completed)
unfolding Planning.synthesize Planning.deliver apply_update merge_optional_dict next_of
delivered-completed c w w' s e e' h k = (ground arith, ground arith, ground arith)

-- Once a review has been made, a subtask that fails too often is escalated as a matter of the
-- review, and the human is told of no stuck subtask. An approval sends the run to the synthesis and
-- from there to the delivery, where neither raises, and the task is completed with the failed
-- result among its results.
pub stuck_after_review :
    (c : GraphConfig) (w1 w2 w3 w4 : World) (s : OrchestratorState) (plan : ExecutionPlan)
    (result : ReviewResult) (e1 e2 e3 e4 : Effects) (id : String)
    → s.review ≡ some result
    → contains id (stuck_ids c s plan) ≡ true
    → w1.decision.action ≡ DecisionAction.approve
    → Escalation.human_escalation c w1 s ≡ some e1
    → Decision.apply_human_decision c w2 (apply_update s e1.update) ≡ some e2
    → Planning.synthesize c w3 (apply_update (apply_update s e1.update) e2.update) ≡ some e3
    → Planning.deliver c w4
        (apply_update (apply_update (apply_update s e1.update) e2.update) e3.update)
      ≡ some e4
    → let s1 = apply_update s e1.update in
      let s2 = apply_update s1 e2.update in
      let s3 = apply_update s2 e3.update in
      let s4 = apply_update s3 e4.update in
      ReviewAsked s s1 w1.decision
      × (next_of c apply_human_decision s2 ≡ some (to synthesize))
      × (next_of c synthesize s3 ≡ some (to deliver))
      × (s4.status ≡ some Status.completed)
      × ((r : SubtaskResult) × (lookup id s4.completed ≡ some r) × (r.success ≡ false))
stuck_after_review c w1 w2 w3 w4 s plan result e1 e2 e3 e4 id reviewed stuck approves first second
      third fourth =
    let asked = human_escalation-ReviewAsked c w1 s result e1 reviewed first in
    let (routed, kept) = approve-ReviewAsked c w2 s _ w1.decision e2 asked approves second in
    let (on, completed, kept') = delivered-completed c w3 w4 _ e3 e4 third fourth in
    let (r, found, failed) = stuck-failed c s plan id stuck in
    (asked, routed, on, completed, (r, ap (lookup id) (kept' ∙ kept) ∙ found, failed))
