-- ===== src/Graph/Run/Approval/Gate.antt =====
-- A plan that needs a human is not worked on before a human has accepted it: wherever a run of
-- graph/build.py works on a plan, the plan is cleared.
use agent_orchestration_syst.Common.{
  ◌≡◌, Bool, true, false, String, none, some, List, [], ◌∷◌, AtSome, AtSome-bind, ◌∙◌, sym,
  Bool-cases, inl, inr, if◌then◌else◌,
}
use agent_orchestration_syst.Schemas.{DecisionAction, ExecutionPlan, HumanDecision, ReviewResult}
use agent_orchestration_syst.Graph.State.{
  Node, intake, plan_task, route_batch, review, apply_review_feedback, notify_human, synthesize,
  deliver, reject_task, human_escalation, apply_human_decision, EscalationSource, OrchestratorState,
}
use agent_orchestration_syst.Graph.World.{GraphConfig}
use agent_orchestration_syst.Graph.Nodes.Decision.{is_plan_source, is_specialist_retry}
use agent_orchestration_syst.Graph.Routing.{
  Next, to, finish, next_of, needs_human, route_after_plan, route_batch_of, incomplete,
  route_after_review, route_decision,
}
use agent_orchestration_syst.Graph.Run.Approval.{last_decision, IsCleared}

-- A decision is on record, and the state holds it.
pub record Answered (s : OrchestratorState) : Type 0 where
  pub decision : HumanDecision
  pub held : s.human_decision ≡ some decision
  pub recorded : last_decision none s.trace_events ≡ some decision.action

-- Where a run works on its plan the plan is cleared. It does so at every node but those before
-- the plan, the escalation, the rejection, and the end.
abbrev pub Gate : GraphConfig → Next → OrchestratorState → Type 0
Gate c (to intake) s = Unit
Gate c (to plan_task) s = Unit
Gate c (to human_escalation) s = Unit
Gate c (to reject_task) s = Unit
Gate c finish s = Unit
Gate c (to apply_human_decision) s = Answered s
Gate c _ s = IsCleared c s

pub Gate-if :
    (c : GraphConfig) (s : OrchestratorState) (b : Bool) (x y : Next)
    → Gate c x s
    → Gate c y s
    → Gate c (if b then x else y) s
Gate-if c s true x y h k = h
Gate-if c s false x y h k = k

abbrev pub Opens : GraphConfig → Node → OrchestratorState → Type 0
Opens c n s = AtSome (λ next. Gate c next s) (next_of c n s)

pub route_batch_of-Gate :
    (c : GraphConfig) (s : OrchestratorState) (plan : ExecutionPlan) (xs ys : List String)
    → IsCleared c s
    → Gate c (route_batch_of s plan xs ys) s
unfolding route_batch_of
route_batch_of-Gate c s plan (x ∷ xs) ys h = tt
route_batch_of-Gate c s plan [] (y ∷ ys) h = h
route_batch_of-Gate c s plan [] [] h =
    Gate-if c s (incomplete s plan) (to human_escalation) (to review) tt h

pub route_after_plan-Gate :
    (c : GraphConfig) (s : OrchestratorState)
    → AtSome (λ next. Gate c next s) (route_after_plan c s)
unfolding route_after_plan
route_after_plan-Gate c s =
    AtSome-bind (λ next. Gate c next s) s.plan _
      λ plan given. elim (Bool-cases (needs_human c s plan)) [
        | inl e ↦ rw e tt
        | inr e ↦ rw e (λ other given' need. absurd (same plan other (sym given ∙ given') e need))
      ]
  where
    same :
        (plan other : ExecutionPlan)
        → some plan ≡ some other
        → needs_human c s plan ≡ false
        → needs_human c s other ≡ true
        → ⊥
    same plan other p e need = cc

pub route_after_review-Gate :
    (c : GraphConfig) (s : OrchestratorState)
    → IsCleared c s
    → AtSome (λ next. Gate c next s) (route_after_review c s)
unfolding route_after_review
route_after_review-Gate c s h =
    AtSome-bind (λ next. Gate c next s) s.review _
      λ (r : ReviewResult) _. Gate-if c s r.requires_human_review _ _ tt (
        Gate-if c s r.approved _ _ (Gate-if c s _ (to notify_human) (to synthesize) h h)
          (Gate-if c s _ (to human_escalation) (to apply_review_feedback) tt h))

-- A decision that does not reject leads to the next plan or to an accepted one.
pub route_decision-Gate :
    (c : GraphConfig) (s : OrchestratorState) (action : DecisionAction) (source : EscalationSource)
    → last_decision none s.trace_events ≡ some action
    → Gate c (route_decision action source) s
unfolding route_decision
route_decision-Gate c s DecisionAction.reject source e = tt
route_decision-Gate c s DecisionAction.take_over source e =
    let accepted : IsCleared c s =
      λ _ _ _. record { decision = DecisionAction.take_over; recorded = e; not_reject = λ p. cc } in
    Gate-if c s (is_specialist_retry source) (to route_batch) (to deliver) accepted accepted
route_decision-Gate c s DecisionAction.approve source e =
    let accepted : IsCleared c s =
      λ _ _ _. record { decision = DecisionAction.approve; recorded = e; not_reject = λ p. cc } in
    Gate-if c s _ (to route_batch) (to synthesize) accepted accepted
route_decision-Gate c s DecisionAction.modify source e =
    let accepted : IsCleared c s =
      λ _ _ _. record { decision = DecisionAction.modify; recorded = e; not_reject = λ p. cc } in
    Gate-if c s (is_plan_source source) (to plan_task) _ tt (
      Gate-if c s (is_specialist_retry source) (to route_batch) (to apply_review_feedback) accepted
        accepted)
