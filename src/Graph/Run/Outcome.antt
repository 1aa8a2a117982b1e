-- ===== src/Graph/Run/Outcome.antt =====
-- How a run of graph/build.py ends.
use agent_orchestration_syst.Common.{
  ℕ, ◌≡◌, refl, Bool, true, false, String, Option, none, some, AtSome, AtSome-of, AtSome-bind, sym,
  subst, is_some,
}
use agent_orchestration_syst.Schemas.{
  DecisionAction, EscalationRequest, HumanDecision, ReviewResult,
}
use agent_orchestration_syst.Graph.State.{
  Node, intake, plan_task, route_batch, run_specialist, review, apply_review_feedback, notify_human,
  synthesize, deliver, reject_task, human_escalation, apply_human_decision, EscalationSource,
  OrchestratorState, Update, apply_update,
}
use agent_orchestration_syst.Graph.World.{GraphConfig, World}
use agent_orchestration_syst.Graph.Nodes.Effects.{Effects}
use agent_orchestration_syst.Graph.Nodes.Planning
use agent_orchestration_syst.Graph.Nodes.Review
use agent_orchestration_syst.Graph.Nodes.Escalation
use agent_orchestration_syst.Graph.Nodes.Decision
use agent_orchestration_syst.Graph.Nodes.Decision.{decision_update, is_specialist_retry}
use agent_orchestration_syst.Graph.Nodes.Decision.Writes.{Undecided, decision_update-Undecided}
use agent_orchestration_syst.Graph.Routing.{
  Next, to, send, finish, next_of, needs_human, route_after_plan, decide_next_batch, stuck_ids,
  ready_ids, route_after_review,
}
use agent_orchestration_syst.Graph.Run.{
  Run, node_effects, step_node, run_branches, advance, advance_from, Reach, Reach-induction, start,
}
use agent_orchestration_syst.Graph.Run.Shape.Kept.{routed}
use agent_orchestration_syst.Graph.Run.Endings.{
  Outcome, Ends, Ended, Ends-if, route_batch_of-Ends, route_decision-Ends, take_over-final_output,
  is_some-overwrite, delivered, turned_down,
}

decided-Ends :
    (c : GraphConfig) (s : OrchestratorState) (u : Update) (source : EscalationSource)
    (decision : HumanDecision)
    → s.human_decision ≡ some decision
    → s.escalation_source ≡ some source
    → u.human_decision ≡ none
    → u.escalation_source ≡ none
    → (decision.action ≡ DecisionAction.take_over
        → is_specialist_retry source ≡ false
        → is_some u.final_output ≡ true)
    → AtSome
        (λ next. Ends next (apply_update s u))
        (next_of c apply_human_decision (apply_update s u))
decided-Ends c s u source decision d f p q taken =
    subst (AtSome (λ next. Ends next (apply_update s u)))
      (sym (routed c s u source decision d f p q))
      (route_decision-Ends (apply_update s u) decision decision.action source
        (unfold apply_update in rw p d) refl (λ a b. is_some-overwrite s u (taken a b)))

module _ (c : GraphConfig) (s : OrchestratorState) (w : World) where
  plan_task-Ended : Ended c s plan_task (Planning.plan_task c w s)
  unfolding Planning.plan_task next_of route_after_plan
  plan_task-Ended =
      AtSome-bind
        (λ e.
          AtSome (λ next. Ends next (apply_update s e.update))
            (next_of c plan_task (apply_update s e.update)))
        (w.create_plan s.task s.memory_context) _ (λ a _. planned _)
    where
      planned : (s' : OrchestratorState) → AtSome (λ next. Ends next s') (route_after_plan c s')
      planned s' =
          AtSome-bind (λ next. Ends next s') s'.plan _
            (λ plan _.
              Ends-if s' (needs_human c s' plan) (to human_escalation) (to route_batch) tt tt)

  review-Ended : Ended c s review (Review.review c w s)
  unfolding Review.review next_of route_after_review
  review-Ended =
      AtSome-bind
        (λ e.
          AtSome (λ next. Ends next (apply_update s e.update))
            (next_of c review (apply_update s e.update)))
        (w.review s.task s.completed) _ (λ a _. reviewed _)
    where
      reviewed : (s' : OrchestratorState) → AtSome (λ next. Ends next s') (route_after_review c s')
      reviewed s' =
          AtSome-bind (λ next. Ends next s') s'.review _
            λ (r : ReviewResult) _. Ends-if s' r.requires_human_review _ _ tt (
              Ends-if s' r.approved _ _ (Ends-if s' _ (to notify_human) (to synthesize) tt tt)
                (Ends-if s' _ (to human_escalation) (to apply_review_feedback) tt tt))

  synthesize-Ended : Ended c s synthesize (Planning.synthesize c w s)
  unfolding Planning.synthesize next_of apply_update
  synthesize-Ended =
      AtSome-bind
        (λ e.
          AtSome (λ next. Ends next (apply_update s e.update))
            (next_of c synthesize (apply_update s e.update)))
        (w.synthesize s.task s.completed) _ (λ a _. refl)

  deliver-Ended : is_some s.final_output ≡ true → Ended c s deliver (Planning.deliver c w s)
  unfolding Planning.deliver next_of apply_update
  deliver-Ended h =
      AtSome-bind
        (λ e.
          AtSome (λ next. Ends next (apply_update s e.update))
            (next_of c deliver (apply_update s e.update)))
        (Planning.remember c w s) _ (λ a _. delivered refl h)

  apply_human_decision-Ended : Ended c s apply_human_decision (Decision.apply_human_decision c w s)
  unfolding Decision.apply_human_decision
  apply_human_decision-Ended =
      let P = λ (e : Effects).
        AtSome (λ next. Ends next (apply_update s e.update))
          (next_of c apply_human_decision (apply_update s e.update)) in
      AtSome-bind P s.human_decision _ λ (decision : HumanDecision) d.
        AtSome-bind P s.escalation_source _ λ source f.
          AtSome-bind P s.escalation _ λ (escalation : EscalationRequest) _.
            AtSome-bind P (decision_update s source escalation decision decision.action) _
              λ (u : Update) e.
                let keeps =
                  AtSome-of Undecided _
                    (decision_update-Undecided s source escalation decision decision.action) e in
                decided-Ends c s _ source decision d f keeps.same_decision keeps.same_source
                  (take_over-final_output s source escalation decision decision.action e)

every {ℓ} : {A : Type ℓ} (o : Option A) → AtSome (λ _. Unit {0}) o
every none = tt
every (some a) = tt

decide_next_batch-Ends :
    (c : GraphConfig) (s : OrchestratorState) → AtSome (λ next. Ends next s) (decide_next_batch c s)
unfolding decide_next_batch
decide_next_batch-Ends c s =
    AtSome-bind (λ next. Ends next s) s.plan _
      (λ plan _. route_batch_of-Ends s plan (stuck_ids c s plan) (ready_ids c s plan))

node-Ended :
    (c : GraphConfig) (s : OrchestratorState) (w : World) (n : Node)
    → Ends (to n) s
    → Ended c s n (node_effects c w n s)
unfolding node_effects next_of
node-Ended c s w intake h = every (Planning.intake c w s)
node-Ended c s w plan_task h = plan_task-Ended c s w
node-Ended c s w route_batch h = decide_next_batch-Ends c _
node-Ended c s w run_specialist h = tt
node-Ended c s w review h = review-Ended c s w
node-Ended c s w apply_review_feedback h = every (Review.apply_review_feedback c w s)
node-Ended c s w notify_human h = every (Review.notify_human c w s)
node-Ended c s w synthesize h = synthesize-Ended c s w
node-Ended c s w deliver h = deliver-Ended c s w h
node-Ended c s w reject_task h =
    unfold Planning.reject_task apply_update in
    turned_down refl (record { decision = h.decision; held = h.held; rejects = h.rejects })
node-Ended c s w human_escalation h = every (Escalation.human_escalation c w s)
node-Ended c s w apply_human_decision h = apply_human_decision-Ended c s w

abbrev IsEnding : Run → Type 0
IsEnding r = Ends r.at r.state

step_node-Ends :
    (c : GraphConfig) (w : World) (n : Node) (r : Run)
    → Ends (to n) r.state
    → AtSome IsEnding (step_node c w n r)
unfolding step_node
step_node-Ends c w n r h = AtSome-bind IsEnding (node_effects c w n r.state) _ λ (e : Effects) f.
    AtSome-bind IsEnding (next_of c n (apply_update r.state e.update)) _ λ next g.
      AtSome-of (λ next. Ends next (apply_update r.state e.update)) _
        (AtSome-of
          (λ (e : Effects).
            AtSome (λ next. Ends next (apply_update r.state e.update))
              (next_of c n (apply_update r.state e.update)))
          _ (node-Ended c r.state w n h) f)
        g

advance_from-Ends :
    (c : GraphConfig) (w : ℕ → World) (at : Next) (r : Run)
    → Ends at r.state
    → AtSome IsEnding (advance_from c w at r)
unfolding advance_from
advance_from-Ends c w (to n) r h = step_node-Ends c (w 0) n r h
advance_from-Ends c w (send ps) r h = AtSome-bind IsEnding (run_branches c w 0 ps) _ (λ es f. tt)
advance_from-Ends c w finish r h = tt

-- A run that has ended was delivered, and then it has a final output, or it was rejected, and
-- then its last human decision is a rejection.
pub finish-Outcome :
    (c : GraphConfig) (task user_id task_id : String) (require_human_approval : Bool) (r : Run)
    → Reach c (start task user_id task_id require_human_approval) r
    → r.at ≡ finish
    → Outcome r.state
unfolding advance start
finish-Outcome c task user_id task_id require_human_approval r reach at =
    subst (λ next. Ends next r.state) at
      (Reach-induction IsEnding tt
        (λ r r' w h e. AtSome-of IsEnding _ (advance_from-Ends c w r.at r h) e) reach)
