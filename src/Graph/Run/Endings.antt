-- ===== src/Graph/Run/Endings.antt =====
-- Where the routers of graph/build.py may end a run: with a final output, or after a rejection.
use agent_orchestration_syst.Common.{
  ◌≡◌, refl, Bool, true, false, String, Option, some, List, [], ◌∷◌, AtSome, arith, inl, inr,
  is_some, Bool-cases, if◌then◌else◌,
}
use agent_orchestration_syst.Schemas.{
  DecisionAction, EscalationRequest, ExecutionPlan, HumanDecision,
}
use agent_orchestration_syst.Graph.State.{
  Node, plan_task, route_batch, review, apply_review_feedback, synthesize, deliver, reject_task,
  human_escalation, EscalationSource, OrchestratorState, Status, Update, apply_update,
}
use agent_orchestration_syst.Graph.World.{GraphConfig}
use agent_orchestration_syst.Graph.Nodes.Effects.{Effects}
use agent_orchestration_syst.Graph.Nodes.Decision.{
  decision_update, take_over_update, is_plan_source, is_specialist_retry,
}
use agent_orchestration_syst.Graph.Routing.{
  Next, to, finish, next_of, route_batch_of, incomplete, route_decision,
}

-- The human rejected the task.
pub record Rejected (s : OrchestratorState) : Type 0 where
  pub decision : HumanDecision
  pub held : s.human_decision ≡ some decision
  pub rejects : decision.action ≡ DecisionAction.reject

-- A delivered task has a final output; a rejected one was rejected by the human.
pub data Outcome (s : OrchestratorState) : Type 0 where
  delivered : s.status ≡ some Status.completed → is_some s.final_output ≡ true → Outcome s
  turned_down : s.status ≡ some Status.rejected → Rejected s → Outcome s

abbrev pub Ends : Next → OrchestratorState → Type 0
Ends (to deliver) s = is_some s.final_output ≡ true
Ends (to reject_task) s = Rejected s
Ends finish s = Outcome s
Ends _ s = Unit

abbrev pub Ended : GraphConfig → OrchestratorState → Node → Option Effects → Type 0
Ended c s n = AtSome λ e.
    AtSome (λ next. Ends next (apply_update s e.update)) (next_of c n (apply_update s e.update))

pub Ends-if :
    (s : OrchestratorState) (b : Bool) (x y : Next)
    → Ends x s
    → Ends y s
    → Ends (if b then x else y) s
Ends-if s true x y h k = h
Ends-if s false x y h k = k

pub route_batch_of-Ends :
    (s : OrchestratorState) (plan : ExecutionPlan) (xs ys : List String)
    → Ends (route_batch_of s plan xs ys) s
unfolding route_batch_of
route_batch_of-Ends s plan (x ∷ xs) ys = tt
route_batch_of-Ends s plan [] (y ∷ ys) = tt
route_batch_of-Ends s plan [] [] =
    Ends-if s (incomplete s plan) (to human_escalation) (to review) tt tt

-- A decision leads to the delivery only if it gave the final output, and to the rejection only
-- if it rejects.
pub route_decision-Ends :
    (s : OrchestratorState) (decision : HumanDecision) (action : DecisionAction)
    (source : EscalationSource)
    → s.human_decision ≡ some decision
    → decision.action ≡ action
    → (action ≡ DecisionAction.take_over
        → is_specialist_retry source ≡ false
        → is_some s.final_output ≡ true)
    → Ends (route_decision action source) s
unfolding route_decision
route_decision-Ends s decision DecisionAction.reject source e a f = record {
  decision = decision;
  held = e;
  rejects = a;
}
route_decision-Ends s decision DecisionAction.take_over source e a f =
    elim (Bool-cases (is_specialist_retry source)) [ inl b ↦ rw b tt | inr b ↦ rw b (f refl b) ]
route_decision-Ends s decision DecisionAction.modify source e a f =
    Ends-if s (is_plan_source source) (to plan_task) _ tt
      (Ends-if s (is_specialist_retry source) (to route_batch) (to apply_review_feedback) tt tt)
route_decision-Ends s decision DecisionAction.approve source e a f =
    Ends-if s _ (to route_batch) (to synthesize) tt tt

pub take_over-final_output :
    (s : OrchestratorState) (source : EscalationSource) (escalation : EscalationRequest)
    (decision : HumanDecision) (action : DecisionAction) {u : Update}
    → decision_update s source escalation decision action ≡ some u
    → action ≡ DecisionAction.take_over
    → is_specialist_retry source ≡ false
    → is_some u.final_output ≡ true
unfolding decision_update take_over_update
take_over-final_output s source escalation decision DecisionAction.take_over e a f = ground arith
take_over-final_output s source escalation decision _ e a f = absurd (cc)

pub is_some-overwrite :
    (s : OrchestratorState) (u : Update)
    → is_some u.final_output ≡ true
    → is_some (apply_update s u).final_output ≡ true
unfolding apply_update
is_some-overwrite s u h = ground arith
