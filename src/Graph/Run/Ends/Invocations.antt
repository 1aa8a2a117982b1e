-- ===== src/Graph/Run/Ends/Invocations.antt =====
-- Every invocation of the graph of graph/build.py comes to an end.
use agent_orchestration_syst.Common.{
  ℕ, zero, suc, ◌+◌, ◌≤◌, ◌<◌, ◌≡◌, refl, Bool, true, false, none, some, List, ◌++◌, ◌||◌,
  if◌then◌else◌, arith, Option-cases, inl, inr, AtSome-bind, ap, ◌∙◌, ltb,
}
use agent_orchestration_syst.Schemas.{DecisionAction, HumanDecision}
use agent_orchestration_syst.Graph.State.{
  Node, intake, plan_task, route_batch, run_specialist, review, apply_review_feedback, notify_human,
  synthesize, deliver, reject_task, human_escalation, apply_human_decision, OrchestratorState,
  apply_update, EscalationSource,
}
use agent_orchestration_syst.Graph.World.{GraphConfig, MemoryCall, World}
use agent_orchestration_syst.Graph.Nodes.Decision.{is_plan_source, is_specialist_retry}
use agent_orchestration_syst.Graph.Nodes.Review
use agent_orchestration_syst.Graph.Nodes.Planning
use agent_orchestration_syst.Graph.Routing.{
  Next, to, next_of, route_after_plan, route_after_review, route_decision, route_after_decision,
}
use agent_orchestration_syst.Graph.Run.{Run, advance, node_effects, step_node}
use agent_orchestration_syst.Graph.Run.Ends.{at_rest, invoke, raised, run_on, Stopped}
use agent_orchestration_syst.Graph.Run.Ends.Segments.{
  AtSome-all, batch-EndsAt, deliver-EndsAt, EndsAt, EndsAt-if, EndsAt-node, human-EndsAt,
  notify-EndsAt, reject-EndsAt, synthesize-EndsAt,
}

module _ (c : GraphConfig) where
  EndsAt-test :
      (s : OrchestratorState) (b : Bool) (x y : Next)
      → EndsAt c s x
      → (b ≡ false → EndsAt c s y)
      → EndsAt c s (if b then x else y)
  EndsAt-test s true x y h k = h
  EndsAt-test s false x y h k = k refl

  feedback-EndsAt :
      (s : OrchestratorState)
      → ((s' : OrchestratorState) → s'.review_cycles ≡ s.review_cycles → EndsAt c s' (to review))
      → EndsAt c s (to apply_review_feedback)
  unfolding node_effects next_of Review.apply_review_feedback apply_update
  feedback-EndsAt s reviewed =
      EndsAt-node c apply_review_feedback s
        λ w. AtSome-bind _ s.review _ λ result e. batch-EndsAt c s.review_cycles reviewed _ refl

  -- A review either leads out of the loop or uses up one of the cycles.
  review_once :
      (s : OrchestratorState)
      → ((s' : OrchestratorState)
          → s'.review_cycles ≡ s.review_cycles + 1
          → s'.review_cycles < c.settings.max_review_cycles
          → EndsAt c s' (to apply_review_feedback))
      → EndsAt c s (to review)
  unfolding node_effects next_of Review.review apply_update route_after_review
  review_once s again = EndsAt-node c review s λ w.
      AtSome-bind _ (w.review s.task s.completed) _ λ (result, agent) e.
        EndsAt-if c _ result.requires_human_review (to human_escalation) _ (human-EndsAt c _) (
          EndsAt-if c _ result.approved _ _
            (EndsAt-if c _ (ltb result.score c.settings.review_score_threshold) (to notify_human)
              (to synthesize) (notify-EndsAt c _) (synthesize-EndsAt c _))
            (EndsAt-test _ _ (to human_escalation) (to apply_review_feedback) (human-EndsAt c _)
              (λ h. again _ refl (ground (arith, h)))))

  -- A review of any number of cycles ends, since there is a limit to the cycles.
  review_within :
      (n : ℕ) (s : OrchestratorState)
      → c.settings.max_review_cycles ≤ s.review_cycles + n
      → EndsAt c s (to review)
  review_within zero s h = review_once s λ s' e more. absurd (omega (arith, h, e, more))
  review_within (suc n) s h =
      review_once s
        λ s' e more. feedback-EndsAt s' λ s'' f. review_within n s'' (omega (arith, h, e, f))

  review-EndsAt : (s : OrchestratorState) → EndsAt c s (to review)
  review-EndsAt s = review_within c.settings.max_review_cycles s (omega arith)

  route_batch-EndsAt : (s : OrchestratorState) → EndsAt c s (to route_batch)
  route_batch-EndsAt s = batch-EndsAt c s.review_cycles (λ s' _. review-EndsAt s') s refl

  plan_task-EndsAt : (s : OrchestratorState) → EndsAt c s (to plan_task)
  unfolding node_effects next_of Planning.plan_task apply_update route_after_plan
  plan_task-EndsAt s = EndsAt-node c plan_task s λ w.
      AtSome-bind _ (w.create_plan s.task s.memory_context) _ λ (plan, agent) _.
        EndsAt-if c _ _ (to human_escalation) (to route_batch) (human-EndsAt c _)
          (route_batch-EndsAt _)

  intake-EndsAt : (s : OrchestratorState) → EndsAt c s (to intake)
  unfolding next_of
  intake-EndsAt s = EndsAt-node c intake s λ w.
      AtSome-all c _ (node_effects c w intake s) λ e. plan_task-EndsAt (apply_update s e.update)

  any_feedback-EndsAt : (s : OrchestratorState) → EndsAt c s (to apply_review_feedback)
  any_feedback-EndsAt s = feedback-EndsAt s (λ s' _. review-EndsAt s')

  route_decision-EndsAt :
      (s : OrchestratorState) (action : DecisionAction) (source : EscalationSource)
      → EndsAt c s (route_decision action source)
  unfolding route_decision
  route_decision-EndsAt s DecisionAction.reject source = reject-EndsAt c s
  route_decision-EndsAt s DecisionAction.take_over source =
      EndsAt-if c s (is_specialist_retry source) _ _ (route_batch-EndsAt s) (deliver-EndsAt c s)
  route_decision-EndsAt s DecisionAction.modify source =
      EndsAt-if c s (is_plan_source source) _ _ (plan_task-EndsAt s) (
        EndsAt-if c s (is_specialist_retry source) _ _ (route_batch-EndsAt s)
          (any_feedback-EndsAt s))
  route_decision-EndsAt s DecisionAction.approve source =
      EndsAt-if c s (is_plan_source source || is_specialist_retry source) _ _ (route_batch-EndsAt s)
        (synthesize-EndsAt c s)

  decision-EndsAt : (s : OrchestratorState) → EndsAt c s (to apply_human_decision)
  unfolding next_of route_after_decision
  decision-EndsAt s = EndsAt-node c apply_human_decision s λ w.
      AtSome-all c _ (node_effects c w apply_human_decision s) λ e.
        let s' = apply_update s e.update in
        AtSome-bind (EndsAt c s') s'.human_decision _ λ (decision : HumanDecision) _.
          AtSome-bind (EndsAt c s') s'.escalation_source _
            λ source _. route_decision-EndsAt s' decision.action source

  specialist-EndsAt : (s : OrchestratorState) → EndsAt c s (to run_specialist)
  unfolding node_effects
  specialist-EndsAt s = EndsAt-node c run_specialist s λ w. tt

  -- Where a run is not at rest, its first superstep is one of those that come to a stop.
  invoke-run_on :
      (r : Run) (answers : ℕ → ℕ → World) (fuel : ℕ) (stop : Stopped)
      → at_rest r.at r ≡ none
      → run_on c answers fuel 0 r ≡ some stop
      → (fuel' : ℕ) × (invoke c answers fuel' r ≡ some stop)
  unfolding invoke run_on
  invoke-run_on r answers zero stop e h = absurd (ground (arith, h))
  invoke-run_on r answers (suc fuel) stop e h = (fuel, rw (e, run_on) at h)

  abbrev Stops : Next → Type 0
  Stops next =
      (s : OrchestratorState) (calls : List MemoryCall) (answers : ℕ → ℕ → World)
      → (fuel : ℕ) × (stop : Stopped) × (invoke c answers fuel
            (record { at = next; state = s; calls = calls })
          ≡ some stop)

  Stops-of :
      (n : Node)
      → ((r : Run) → at_rest (to n) r ≡ none)
      → ((s : OrchestratorState) → EndsAt c s (to n))
      → Stops (to n)
  Stops-of n moves ends s calls answers =
      let r : Run = record { at = to n; state = s; calls = calls } in
      let (fuel, stop, h) = ends s calls answers 0 in
      let (fuel', h') = invoke-run_on r answers fuel stop (moves r) h in (fuel', stop, h')

  -- A run that waited for the human goes on with the human's decision.
  human-Stops : Stops (to human_escalation)
  unfolding invoke advance step_node next_of
  human-Stops s calls answers =
      elim (Option-cases (node_effects c (answers 0 0) human_escalation s)) [
        | inl e ↦ (0, raised, rw (e, invoke))
        | inr (effects, e) ↦
            let (fuel, stop, h) =
              decision-EndsAt (apply_update s effects.update) (calls ++ effects.calls) answers 1 in
            (fuel, stop, rw (e, invoke) h)
      ]

  node-Stops : (n : Node) → Stops (to n)
  node-Stops intake = Stops-of intake (λ r. refl) intake-EndsAt
  node-Stops plan_task = Stops-of plan_task (λ r. refl) plan_task-EndsAt
  node-Stops route_batch = Stops-of route_batch (λ r. refl) route_batch-EndsAt
  node-Stops run_specialist = Stops-of run_specialist (λ r. refl) specialist-EndsAt
  node-Stops review = Stops-of review (λ r. refl) review-EndsAt
  node-Stops apply_review_feedback = Stops-of apply_review_feedback (λ r. refl) any_feedback-EndsAt
  node-Stops notify_human = Stops-of notify_human (λ r. refl) (notify-EndsAt c)
  node-Stops synthesize = Stops-of synthesize (λ r. refl) (synthesize-EndsAt c)
  node-Stops deliver = Stops-of deliver (λ r. refl) (deliver-EndsAt c)
  node-Stops reject_task = Stops-of reject_task (λ r. refl) (reject-EndsAt c)
  node-Stops human_escalation = human-Stops
  node-Stops apply_human_decision = Stops-of apply_human_decision (λ r. refl) decision-EndsAt

-- Whatever the agents and the human answer, an invocation of the graph at any node, with any
-- state, comes to a stop after finitely many supersteps: it waits for a human, has ended or raised.
pub invoke-Stops :
    (c : GraphConfig) (answers : ℕ → ℕ → World) (r : Run) (n : Node)
    → r.at ≡ to n
    → (fuel : ℕ) × (stop : Stopped) × (invoke c answers fuel r ≡ some stop)
invoke-Stops c answers r n h =
    let (fuel, stop, k) = node-Stops c n r.state r.calls answers in
    (fuel, stop, ap (λ (at : Next). invoke c answers fuel (record r { at = at })) h ∙ k)
