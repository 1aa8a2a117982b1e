-- ===== src/Graph/Run/Approval.antt =====
-- The human's last decision since the current plan was made, read off the trace of a run of
-- graph/build.py, and what the nodes do to it.
pub mod Gate
pub mod Guarded
use agent_orchestration_syst.Common.{
  ◌≡◌, ◌≢◌, refl, true, Option, none, some, List, [], ◌∷◌, ◌++◌, AtSome, AtSome-bind, ◌∙◌, arith,
}
use agent_orchestration_syst.Schemas.{DecisionAction, ExecutionPlan}
use agent_orchestration_syst.Graph.State.{
  Attributes, planned, escalated_to, OrchestratorState, TraceEvent, apply_update,
}
use agent_orchestration_syst.Graph.World.{GraphConfig, World}
use agent_orchestration_syst.Graph.Nodes.Effects.{Effects}
use agent_orchestration_syst.Graph.Nodes.Planning
use agent_orchestration_syst.Graph.Nodes.Review
use agent_orchestration_syst.Graph.Nodes.Specialist
use agent_orchestration_syst.Graph.Nodes.Specialist.{SpecialistState, find_subtask}
use agent_orchestration_syst.Graph.Routing.{needs_human}

-- A plan forgets the decisions before it, and an escalation records the decision that ends it.
abbrev pub note : Option DecisionAction → Attributes → Option DecisionAction
note last (planned _ _ _ _ _ _) = none
note last (escalated_to _ _ _ decision) = some decision
note last _ = last

abbrev pub last_decision : Option DecisionAction → List TraceEvent → Option DecisionAction
last_decision last [] = last
last_decision last (e ∷ es) = last_decision (note last e.attributes) es

pub last_decision-append :
    (last : Option DecisionAction) (xs ys : List TraceEvent)
    → last_decision last (xs ++ ys) ≡ last_decision (last_decision last xs) ys
last_decision-append last [] ys = refl
last_decision-append last (x ∷ xs) ys = last_decision-append (note last x.attributes) xs ys

-- A human has seen the current plan and has decided something other than to reject it.
pub record IsAccepted (s : OrchestratorState) : Type 0 where
  pub decision : DecisionAction
  pub recorded : last_decision none s.trace_events ≡ some decision
  pub not_reject : decision ≢ DecisionAction.reject

-- If the plan needs a human, a human has accepted it.
abbrev pub IsCleared : GraphConfig → OrchestratorState → Type 0
IsCleared c s =
    (plan : ExecutionPlan) → s.plan ≡ some plan → needs_human c s plan ≡ true → IsAccepted s

-- The node makes no plan and decides nothing.
pub record Silent (e : Effects) : Type 0 where
  pub same_plan : e.update.plan ≡ none
  pub silent : (last : Option DecisionAction) → last_decision last e.update.trace_events ≡ last

module _ (c : GraphConfig) (w : World) (s : OrchestratorState) where
  pub synthesize-Silent : AtSome Silent (Planning.synthesize c w s)
  unfolding Planning.synthesize
  synthesize-Silent =
      AtSome-bind Silent (w.synthesize s.task s.completed) _
        (λ a _. record { same_plan = refl; silent = λ last. refl })

  pub deliver-Silent : AtSome Silent (Planning.deliver c w s)
  unfolding Planning.deliver
  deliver-Silent =
      AtSome-bind Silent (Planning.remember c w s) _
        (λ a _. record { same_plan = refl; silent = λ last. refl })

  pub review-Silent : AtSome Silent (Review.review c w s)
  unfolding Review.review
  review-Silent =
      AtSome-bind Silent (w.review s.task s.completed) _
        (λ a _. record { same_plan = refl; silent = λ last. refl })

  pub notify_human-Silent : AtSome Silent (Review.notify_human c w s)
  unfolding Review.notify_human
  notify_human-Silent =
      AtSome-bind Silent s.review _ (λ a _. record { same_plan = refl; silent = λ last. refl })

  pub apply_review_feedback-Silent : AtSome Silent (Review.apply_review_feedback c w s)
  unfolding Review.apply_review_feedback
  apply_review_feedback-Silent =
      AtSome-bind Silent s.review _ (λ a _. record { same_plan = refl; silent = λ last. refl })

pub run_specialist-Silent :
    (c : GraphConfig) (w : World) (p : SpecialistState)
    → AtSome Silent (Specialist.run_specialist c w p)
unfolding Specialist.run_specialist
run_specialist-Silent c w p =
    AtSome-bind Silent (find_subtask p.subtask_id p.plan.subtasks) _ λ subtask _.
      AtSome-bind Silent (w.run subtask.specialist subtask p.completed _) _
        (λ a _. record { same_plan = refl; silent = λ last. refl })

-- After such a node a plan that needs a human is still accepted.
pub apply_update-IsCleared :
    (c : GraphConfig) (s : OrchestratorState) (e : Effects)
    → IsCleared c s
    → Silent e
    → IsCleared c (apply_update s e.update)
unfolding apply_update needs_human
apply_update-IsCleared c s e h q plan given need =
    let a = h plan (ground (arith, q.same_plan)) need in
    record {
      decision = a.decision;
      recorded =
          last_decision-append none s.trace_events e.update.trace_events
          ∙ q.silent (last_decision none s.trace_events)
          ∙ a.recorded;
      not_reject = a.not_reject;
    }
