-- ===== src/Graph/Run/Shape/Kept.antt =====
-- Every superstep of a run of graph/build.py keeps the shape of the results.
use agent_orchestration_syst.Common.{
  ◌≡◌, refl, true, Option, none, some, [], ◌∷◌, arith, inl, inr, subst, Bool-cases, AtSome,
  AtSome-of, AtSome-bind, sym, ap,
}
use agent_orchestration_syst.Common.Dict.{Dict, contains, keys}
use agent_orchestration_syst.Schemas.{
  DecisionAction, EscalationRequest, HumanDecision, ExecutionPlan, ReviewResult, SubtaskResult,
}
use agent_orchestration_syst.Graph.State.{
  EscalationSource, Node, intake, plan_task, route_batch, review, apply_review_feedback,
  notify_human, synthesize, deliver, reject_task, human_escalation, apply_human_decision,
  OrchestratorState, Update, apply_update, merge_optional_dict,
}
use agent_orchestration_syst.Graph.State.Merge.{merge-Distinct, merge-Within}
use agent_orchestration_syst.Graph.World.{GraphConfig, World}
use agent_orchestration_syst.Graph.Nodes.Effects.{Effects}
use agent_orchestration_syst.Graph.Nodes.Frame.{
  Quiet, synthesize-Quiet, deliver-Quiet, reject_task-Quiet, review-Quiet, notify_human-Quiet,
}
use agent_orchestration_syst.Graph.Nodes.Planning
use agent_orchestration_syst.Graph.Nodes.Review
use agent_orchestration_syst.Graph.Nodes.Escalation
use agent_orchestration_syst.Graph.Nodes.Escalation.{
  Trigger, trigger, choose_trigger, review_trigger, stuck_trigger,
}
use agent_orchestration_syst.Graph.Nodes.Decision
use agent_orchestration_syst.Graph.Nodes.Decision.{
  by_id, is_plan_source, is_specialist_retry, decision_update, modify_update,
}
use agent_orchestration_syst.Graph.Nodes.Decision.Writes.{
  Within, decision_update-Fits, delete_all-Writes,
}
use agent_orchestration_syst.Graph.Routing.{to, next_of, route_after_decision, route_decision}
use agent_orchestration_syst.Graph.Run.{node_effects}
use agent_orchestration_syst.Graph.Run.Shape.{
  HasPlan, Unplanned, Decided, Shape, Shape-if, apply_update-HasPlan, apply_update-Quiet,
  route_after_plan-Leads, route_after_review-Leads, decide_next_batch-Leads,
}

-- A first plan, in a state with no results.
planned :
    (s : OrchestratorState) (u : Update) (plan : ExecutionPlan)
    → Unplanned s
    → u.plan ≡ some plan
    → u.completed ≡ []
    → HasPlan (apply_update s u)
unfolding apply_update
planned s u plan h p e = record {
  plan = plan;
  given = ground arith;
  in_plan = record {
    distinct = merge-Distinct s.completed u.completed (rw h.no_results tt);
    within =
        merge-Within (keys (by_id plan)) s.completed u.completed
          (λ x m.
            absurd
              (ground (arith, ap (λ (d : Dict SubtaskResult). contains x (keys d)) h.no_results)))
          (rw e tt);
  };
}

-- The source of an escalation is the plan only where there are no results.
choose_trigger-on_plan :
    (c : GraphConfig) (s : OrchestratorState) (completed : Dict SubtaskResult)
    (result : Option ReviewResult) {t : Trigger}
    → choose_trigger c s completed result ≡ some t
    → is_plan_source t.source ≡ true
    → completed ≡ []
unfolding choose_trigger review_trigger stuck_trigger
choose_trigger-on_plan c s completed (some result) e p = absurd (ground arith)
choose_trigger-on_plan c s [] none e p = refl
choose_trigger-on_plan c s (_ ∷ _) none e p = absurd (ground arith)

escalated-Decided :
    (c : GraphConfig) (s : OrchestratorState) (t : Trigger) (u : Update)
    → HasPlan s
    → trigger c s ≡ some t
    → u.plan ≡ none
    → u.completed ≡ []
    → u.escalation_source ≡ some t.source
    → Decided (apply_update s u)
unfolding trigger apply_update merge_optional_dict
escalated-Decided c s t u h e p q r = record {
  has_plan = apply_update-HasPlan s u h p (rw q tt);
  on_plan = λ source f k. rw q (choose_trigger-on_plan c s s.completed s.review e (ground arith));
}

-- From a state that an effect leads to, the edges lead to a state of the right shape.
abbrev pub Follows : GraphConfig → Node → OrchestratorState → Type 0
Follows c n s = AtSome (λ next. Shape next s) (next_of c n s)

module _ (c : GraphConfig) (s : OrchestratorState) where
  abbrev pub Kept : Node → Option Effects → Type 0
  Kept n = AtSome (λ e. Follows c n (apply_update s e.update))

  Kept-Quiet :
      (n : Node) (o : Option Effects)
      → HasPlan s
      → AtSome Quiet o
      → ((s' : OrchestratorState) → HasPlan s' → Follows c n s')
      → Kept n o
  Kept-Quiet n none h q lead = tt
  Kept-Quiet n (some e) h q lead = lead (apply_update s e.update) (apply_update-Quiet s e h q)

  module _ (w : World) where
    pub intake-Kept : Unplanned s → Kept intake (node_effects c w intake s)
    unfolding node_effects next_of apply_update merge_optional_dict Planning.intake
    intake-Kept h = record { no_results = h.no_results }

    pub plan_task-Kept : Unplanned s → Kept plan_task (node_effects c w plan_task s)
    unfolding node_effects Planning.plan_task next_of
    plan_task-Kept h =
        AtSome-bind (λ e. Follows c plan_task (apply_update s e.update))
          (w.create_plan s.task s.memory_context) _
          λ (plan, agent) _. route_after_plan-Leads c _ (planned s _ plan h refl refl)

    pub route_batch-Kept : HasPlan s → Kept route_batch (node_effects c w route_batch s)
    unfolding node_effects next_of
    route_batch-Kept h =
        Kept-Quiet route_batch (node_effects c w route_batch s) h
          (record { same_plan = refl; same_completed = refl })
          (λ s' h'. decide_next_batch-Leads c s' h')

    pub review-Kept : HasPlan s → Kept review (node_effects c w review s)
    unfolding node_effects next_of
    review-Kept h =
        Kept-Quiet review _ h (review-Quiet c w s) (λ s' h'. route_after_review-Leads c s' h')

    pub notify_human-Kept : HasPlan s → Kept notify_human (node_effects c w notify_human s)
    unfolding node_effects next_of
    notify_human-Kept h = Kept-Quiet notify_human _ h (notify_human-Quiet c w s) (λ s' h'. h')

    pub synthesize-Kept : HasPlan s → Kept synthesize (node_effects c w synthesize s)
    unfolding node_effects next_of
    synthesize-Kept h = Kept-Quiet synthesize _ h (synthesize-Quiet c w s) (λ s' h'. h')

    pub deliver-Kept : HasPlan s → Kept deliver (node_effects c w deliver s)
    unfolding node_effects next_of
    deliver-Kept h = Kept-Quiet deliver _ h (deliver-Quiet c w s) (λ s' h'. tt)

    pub reject_task-Kept : HasPlan s → Kept reject_task (node_effects c w reject_task s)
    unfolding node_effects next_of
    reject_task-Kept h = Kept-Quiet reject_task _ h (reject_task-Quiet c w s) (λ s' h'. tt)

    pub apply_review_feedback-Kept :
        HasPlan s → Kept apply_review_feedback (node_effects c w apply_review_feedback s)
    unfolding node_effects next_of Review.apply_review_feedback
    apply_review_feedback-Kept h =
        AtSome-bind (λ e. Follows c apply_review_feedback (apply_update s e.update)) s.review _
          λ (r : ReviewResult) _.
            apply_update-HasPlan s _ h refl
              (delete_all-Writes SubtaskResult (keys (by_id h.plan)) r.subtasks_to_redo)

    pub human_escalation-Kept :
        HasPlan s → Kept human_escalation (node_effects c w human_escalation s)
    unfolding node_effects next_of Escalation.human_escalation
    human_escalation-Kept h =
        AtSome-bind (λ e. Follows c human_escalation (apply_update s e.update)) (trigger c s) _
          λ (t : Trigger) e. escalated-Decided c s t _ h e refl refl refl

Shape-decision :
    (s : OrchestratorState) (action : DecisionAction) (source : EscalationSource)
    → HasPlan s
    → (action ≡ DecisionAction.modify → is_plan_source source ≡ true → s.completed ≡ [])
    → Shape (route_decision action source) s
unfolding route_decision
Shape-decision s DecisionAction.reject source h f = h
Shape-decision s DecisionAction.take_over source h f =
    Shape-if s (is_specialist_retry source) (to route_batch) (to deliver) h h
Shape-decision s DecisionAction.approve source h f =
    Shape-if s _ (to route_batch) (to synthesize) h h
Shape-decision s DecisionAction.modify source h f = elim (Bool-cases (is_plan_source source)) [
  | inl e ↦ rw e (record { no_results = f refl e })
  | inr e ↦
      rw e (Shape-if s (is_specialist_retry source) (to route_batch) (to apply_review_feedback) h h)
]

decision_update-on_plan :
    (s : OrchestratorState) (source : EscalationSource) (escalation : EscalationRequest)
    (decision : HumanDecision) (action : DecisionAction) {u : Update}
    → decision_update s source escalation decision action ≡ some u
    → action ≡ DecisionAction.modify
    → is_plan_source source ≡ true
    → u.completed ≡ []
unfolding decision_update modify_update
decision_update-on_plan s source escalation decision DecisionAction.modify e a p = ground arith
decision_update-on_plan s source escalation decision _ e a p = absurd (cc)

pub routed :
    (c : GraphConfig) (s : OrchestratorState) (u : Update) (source : EscalationSource)
    (decision : HumanDecision)
    → s.human_decision ≡ some decision
    → s.escalation_source ≡ some source
    → u.human_decision ≡ none
    → u.escalation_source ≡ none
    → next_of c apply_human_decision (apply_update s u)
      ≡ some (route_decision decision.action source)
unfolding next_of route_after_decision apply_update
routed c s u source decision d f p q = rw (p, q, d, f)

emptied :
    (s : OrchestratorState) (u : Update)
    → u.completed ≡ []
    → s.completed ≡ []
    → (apply_update s u).completed ≡ []
unfolding apply_update merge_optional_dict
emptied s u p q = rw p q

decided-Follows :
    (c : GraphConfig) (s : OrchestratorState) (u : Update) (source : EscalationSource)
    (decision : HumanDecision)
    → HasPlan (apply_update s u)
    → s.human_decision ≡ some decision
    → s.escalation_source ≡ some source
    → u.human_decision ≡ none
    → u.escalation_source ≡ none
    → (decision.action ≡ DecisionAction.modify
        → is_plan_source source ≡ true
        → (apply_update s u).completed ≡ [])
    → Follows c apply_human_decision (apply_update s u)
decided-Follows c s u source decision h d f p q k =
    subst (AtSome (λ next. Shape next (apply_update s u)))
      (sym (routed c s u source decision d f p q))
      (Shape-decision (apply_update s u) decision.action source h k)

pub apply_human_decision-Kept :
    (c : GraphConfig) (s : OrchestratorState) (w : World)
    → Decided s
    → Kept c s apply_human_decision (node_effects c w apply_human_decision s)
unfolding node_effects Decision.apply_human_decision
apply_human_decision-Kept c s w h =
    let P = λ (e : Effects). Follows c apply_human_decision (apply_update s e.update) in
    AtSome-bind P s.human_decision _ λ (decision : HumanDecision) d.
      AtSome-bind P s.escalation_source _ λ source f.
        AtSome-bind P s.escalation _ λ (escalation : EscalationRequest) _.
          AtSome-bind P (decision_update s source escalation decision decision.action) _
            λ (u : Update) e.
              let fits =
                AtSome-of (Within (keys (by_id h.has_plan.plan))) _
                  (decision_update-Fits s h.has_plan.plan h.has_plan.given source escalation
                    decision decision.action)
                  e in
              decided-Follows c s _ source decision
                (apply_update-HasPlan s _ h.has_plan fits.same_plan fits.writes) d f
                fits.same_decision fits.same_source
                (λ m p.
                  emptied s _
                    (decision_update-on_plan s source escalation decision decision.action e m p)
                    (h.on_plan source f p))
