-- ===== src/Graph/Run/Approval/Guarded.antt =====
-- Every superstep of a run of graph/build.py keeps the gate, so a batch of specialists is never
-- sent out on a plan that a human still has to see.
use agent_orchestration_syst.Common.{
  ℕ, suc, ◌≡◌, refl, Bool, true, String, Option, none, some, List, [], ◌∷◌, ◌++◌, All, AtSome,
  AtSome-of, AtSome-bind, ◌∙◌, sym, subst, ◌⊎◌, inl, inr,
}
use agent_orchestration_syst.Schemas.{
  DecisionAction, EscalationRequest, ExecutionPlan, HumanDecision,
}
use agent_orchestration_syst.Graph.State.{
  Node, intake, plan_task, route_batch, run_specialist, review, apply_review_feedback, notify_human,
  synthesize, deliver, reject_task, human_escalation, apply_human_decision, EscalationSource,
  OrchestratorState, Update, apply_update,
}
use agent_orchestration_syst.Graph.World.{GraphConfig, World}
use agent_orchestration_syst.Graph.Nodes.Effects.{Effects}
use agent_orchestration_syst.Graph.Nodes.Planning
use agent_orchestration_syst.Graph.Nodes.Escalation
use agent_orchestration_syst.Graph.Nodes.Escalation.{Trigger, trigger}
use agent_orchestration_syst.Graph.Nodes.Specialist
use agent_orchestration_syst.Graph.Nodes.Specialist.{SpecialistState}
use agent_orchestration_syst.Graph.Nodes.Decision
use agent_orchestration_syst.Graph.Nodes.Decision.{decision_update}
use agent_orchestration_syst.Graph.Nodes.Decision.Writes.{Undecided, decision_update-Undecided}
use agent_orchestration_syst.Graph.Routing.{
  Next, to, send, finish, next_of, needs_human, decide_next_batch, stuck_ids, ready_ids,
}
use agent_orchestration_syst.Graph.Run.{
  Run, node_effects, step_node, run_branches, merge_branches, advance, advance_from, Reach,
  Reach-induction, start,
}
use agent_orchestration_syst.Graph.Run.Shape.Kept.{routed}
use agent_orchestration_syst.Graph.Run.Approval.{
  last_decision, last_decision-append, IsAccepted, IsCleared, Silent, synthesize-Silent,
  deliver-Silent, review-Silent, notify_human-Silent, apply_review_feedback-Silent,
  run_specialist-Silent, apply_update-IsCleared,
}
use agent_orchestration_syst.Graph.Run.Approval.Gate.{
  Answered, Gate, Opens, route_batch_of-Gate, route_after_plan-Gate, route_after_review-Gate,
  route_decision-Gate,
}

answered :
    (s : OrchestratorState) (u : Update) (decision : HumanDecision)
    → u.human_decision ≡ some decision
    → last_decision (last_decision none s.trace_events) u.trace_events ≡ some decision.action
    → Answered (apply_update s u)
unfolding apply_update
answered s u decision e f = record {
  decision = decision;
  held = rw e;
  recorded = last_decision-append none s.trace_events u.trace_events ∙ f;
}

module _ (c : GraphConfig) (s : OrchestratorState) where
  abbrev Opened : Node → Option Effects → Type 0
  Opened n = AtSome (λ e. Opens c n (apply_update s e.update))

  Opened-Silent :
      (n : Node) (o : Option Effects)
      → IsCleared c s
      → AtSome Silent o
      → ((s' : OrchestratorState) → IsCleared c s' → Opens c n s')
      → Opened n o
  Opened-Silent n none h q lead = tt
  Opened-Silent n (some e) h q lead =
      lead (apply_update s e.update) (apply_update-IsCleared c s e h q)

  decide_next_batch-Gate : IsCleared c s → AtSome (λ next. Gate c next s) (decide_next_batch c s)
  unfolding decide_next_batch
  decide_next_batch-Gate h =
      AtSome-bind (λ next. Gate c next s) s.plan _
        (λ plan _. route_batch_of-Gate c s plan (stuck_ids c s plan) (ready_ids c s plan) h)

decided-Opens :
    (c : GraphConfig) (s : OrchestratorState) (u : Update) (source : EscalationSource)
    (h : Answered s)
    → s.escalation_source ≡ some source
    → u.human_decision ≡ none
    → u.escalation_source ≡ none
    → ((last : Option DecisionAction) → last_decision last u.trace_events ≡ last)
    → Opens c apply_human_decision (apply_update s u)
decided-Opens c s u source h f p q silent =
    subst (AtSome (λ next. Gate c next (apply_update s u)))
      (sym (routed c s u source h.decision h.held f p q))
      (route_decision-Gate c (apply_update s u) h.decision.action source (
        unfold apply_update in
        last_decision-append none s.trace_events u.trace_events
        ∙ silent (last_decision none s.trace_events)
        ∙ h.recorded))

module _ (c : GraphConfig) (s : OrchestratorState) (w : World) where
  plan_task-Opened : Opened c s plan_task (Planning.plan_task c w s)
  unfolding Planning.plan_task next_of
  plan_task-Opened =
      AtSome-bind (λ e. Opens c plan_task (apply_update s e.update))
        (w.create_plan s.task s.memory_context) _ (λ a _. route_after_plan-Gate c _)

  human_escalation-Opened : Opened c s human_escalation (Escalation.human_escalation c w s)
  unfolding Escalation.human_escalation next_of
  human_escalation-Opened =
      AtSome-bind (λ e. Opens c human_escalation (apply_update s e.update)) (trigger c s) _
        (λ (t : Trigger) _. answered s _ w.decision refl refl)

  apply_human_decision-Opened :
      Answered s → Opened c s apply_human_decision (Decision.apply_human_decision c w s)
  unfolding Decision.apply_human_decision
  apply_human_decision-Opened h =
      let P = λ (e : Effects). Opens c apply_human_decision (apply_update s e.update) in
      AtSome-bind P s.human_decision _ λ (decision : HumanDecision) _.
        AtSome-bind P s.escalation_source _ λ source f.
          AtSome-bind P s.escalation _ λ (escalation : EscalationRequest) _.
            AtSome-bind P (decision_update s source escalation decision decision.action) _
              λ (u : Update) e.
                let keeps =
                  AtSome-of Undecided _
                    (decision_update-Undecided s source escalation decision decision.action) e in
                decided-Opens c s _ source h f keeps.same_decision keeps.same_source (λ last. refl)

node-Opened :
    (c : GraphConfig) (s : OrchestratorState) (w : World) (n : Node)
    → Gate c (to n) s
    → Opened c s n (node_effects c w n s)
unfolding node_effects next_of Planning.intake Planning.reject_task
node-Opened c s w intake h = tt
node-Opened c s w plan_task h = plan_task-Opened c s w
node-Opened c s w route_batch h =
    Opened-Silent c s route_batch (node_effects c w route_batch s) h
      (record { same_plan = refl; silent = λ last. refl }) (λ s' h'. decide_next_batch-Gate c s' h')
node-Opened c s w run_specialist h = tt
node-Opened c s w review h =
    Opened-Silent c s review _ h (review-Silent c w s) (λ s' h'. route_after_review-Gate c s' h')
node-Opened c s w apply_review_feedback h =
    Opened-Silent c s apply_review_feedback _ h (apply_review_feedback-Silent c w s) (λ s' h'. h')
node-Opened c s w notify_human h =
    Opened-Silent c s notify_human _ h (notify_human-Silent c w s) (λ s' h'. h')
node-Opened c s w synthesize h =
    Opened-Silent c s synthesize _ h (synthesize-Silent c w s) (λ s' h'. h')
node-Opened c s w deliver h = Opened-Silent c s deliver _ h (deliver-Silent c w s) (λ s' h'. tt)
node-Opened c s w reject_task h = tt
node-Opened c s w human_escalation h = human_escalation-Opened c s w
node-Opened c s w apply_human_decision h = apply_human_decision-Opened c s w h

abbrev IsGated : GraphConfig → Run → Type 0
IsGated c r = Gate c r.at r.state

step_node-Gated :
    (c : GraphConfig) (w : World) (n : Node) (r : Run)
    → Gate c (to n) r.state
    → AtSome (IsGated c) (step_node c w n r)
unfolding step_node
step_node-Gated c w n r h =
    AtSome-bind (IsGated c) (node_effects c w n r.state) _ λ (e : Effects) f.
      AtSome-bind (IsGated c) (next_of c n (apply_update r.state e.update)) _ λ next g.
        AtSome-of (λ next. Gate c next (apply_update r.state e.update)) _
          (AtSome-of (λ (e : Effects). Opens c n (apply_update r.state e.update)) _
            (node-Opened c r.state w n h) f)
          g

run_branches-Silent :
    (c : GraphConfig) (w : ℕ → World) (i : ℕ) (ps : List SpecialistState)
    → AtSome (All Silent) (run_branches c w i ps)
unfolding run_branches
run_branches-Silent c w i [] = tt
run_branches-Silent c w i (p ∷ ps) =
    AtSome-bind (All Silent) (Specialist.run_specialist c (w i) p) _ λ e f.
      AtSome-bind (All Silent) (run_branches c w (suc i) ps) _ λ es g. (
        AtSome-of Silent _ (run_specialist-Silent c (w i) p) f,
        AtSome-of (All Silent) _ (run_branches-Silent c w (suc i) ps) g,
      )

merge_branches-IsCleared :
    (c : GraphConfig) (es : List Effects) (r : Run)
    → IsCleared c r.state
    → All Silent es
    → IsCleared c (merge_branches r es).state
unfolding merge_branches
merge_branches-IsCleared c [] r h a = h
merge_branches-IsCleared c (e ∷ es) r h a =
    merge_branches-IsCleared c es
      (record r { state = apply_update r.state e.update; calls = r.calls ++ e.calls })
      (apply_update-IsCleared c r.state e h a.0) a.1

advance_from-Gated :
    (c : GraphConfig) (w : ℕ → World) (at : Next) (r : Run)
    → Gate c at r.state
    → AtSome (IsGated c) (advance_from c w at r)
unfolding advance_from
advance_from-Gated c w (to n) r h = step_node-Gated c (w 0) n r h
advance_from-Gated c w (send ps) r h = AtSome-bind (IsGated c) (run_branches c w 0 ps) _ λ es f.
    merge_branches-IsCleared c es r h (AtSome-of (All Silent) _ (run_branches-Silent c w 0 ps) f)
advance_from-Gated c w finish r h = tt

pub Reach-Gated :
    (c : GraphConfig) (task user_id task_id : String) (require_human_approval : Bool) {r : Run}
    → Reach c (start task user_id task_id require_human_approval) r
    → Gate c r.at r.state
unfolding advance start
Reach-Gated c task user_id task_id require_human_approval reach =
    Reach-induction (IsGated c) tt
      (λ r r' w h e. AtSome-of (IsGated c) _ (advance_from-Gated c w r.at r h) e) reach

-- Specialists are sent out, and a task is delivered, only on a plan that needs no human, or that
-- a human has seen since it was made and has not rejected. A plan needs one if its confidence is
-- below the threshold, if one of its subtasks is sensitive, or if the caller asked for approval.
pub work-IsAccepted :
    (c : GraphConfig) (task user_id task_id : String) (require_human_approval : Bool) (r : Run)
    (ps : List SpecialistState) (plan : ExecutionPlan)
    → Reach c (start task user_id task_id require_human_approval) r
    → (r.at ≡ send ps) ⊎ (r.at ≡ to deliver)
    → r.state.plan ≡ some plan
    → needs_human c r.state plan ≡ true
    → IsAccepted r.state
work-IsAccepted c task user_id task_id require_human_approval r ps plan reach (inl at) given need =
    let cleared : IsCleared c r.state =
      subst (λ next. Gate c next r.state) at
        (Reach-Gated c task user_id task_id require_human_approval reach) in
    cleared plan given need
work-IsAccepted c task user_id task_id require_human_approval r ps plan reach (inr at) given need =
    let cleared : IsCleared c r.state =
      subst (λ next. Gate c next r.state) at
        (Reach-Gated c task user_id task_id require_human_approval reach) in
    cleared plan given need
