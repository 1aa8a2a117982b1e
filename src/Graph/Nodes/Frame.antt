-- ===== src/Graph/Nodes/Frame.antt =====
-- What the nodes of graph/build.py leave alone.
use agent_orchestration_syst.Common.{◌≡◌, refl, none, [], AtSome, AtSome-bind}
use agent_orchestration_syst.Graph.State.{OrchestratorState}
use agent_orchestration_syst.Graph.World.{GraphConfig, World}
use agent_orchestration_syst.Graph.Nodes.Effects.{Effects}
use agent_orchestration_syst.Graph.Nodes.Planning
use agent_orchestration_syst.Graph.Nodes.Review
use agent_orchestration_syst.Graph.Nodes.Escalation
use agent_orchestration_syst.Graph.Nodes.Escalation.{trigger}

-- The node makes no plan and writes no result.
pub record Quiet (e : Effects) : Type 0 where
  pub same_plan : e.update.plan ≡ none
  pub same_completed : e.update.completed ≡ []

module _ (c : GraphConfig) (w : World) (s : OrchestratorState) where
  pub intake-Quiet : AtSome Quiet (Planning.intake c w s)
  unfolding Planning.intake
  intake-Quiet = record { same_plan = refl; same_completed = refl }

  pub synthesize-Quiet : AtSome Quiet (Planning.synthesize c w s)
  unfolding Planning.synthesize
  synthesize-Quiet =
      AtSome-bind Quiet (w.synthesize s.task s.completed) _
        (λ a _. record { same_plan = refl; same_completed = refl })

  pub deliver-Quiet : AtSome Quiet (Planning.deliver c w s)
  unfolding Planning.deliver
  deliver-Quiet =
      AtSome-bind Quiet (Planning.remember c w s) _
        (λ a _. record { same_plan = refl; same_completed = refl })

  pub reject_task-Quiet : AtSome Quiet (Planning.reject_task c w s)
  unfolding Planning.reject_task
  reject_task-Quiet = record { same_plan = refl; same_completed = refl }

  pub review-Quiet : AtSome Quiet (Review.review c w s)
  unfolding Review.review
  review-Quiet =
      AtSome-bind Quiet (w.review s.task s.completed) _
        (λ a _. record { same_plan = refl; same_completed = refl })

  pub notify_human-Quiet : AtSome Quiet (Review.notify_human c w s)
  unfolding Review.notify_human
  notify_human-Quiet =
      AtSome-bind Quiet s.review _ (λ a _. record { same_plan = refl; same_completed = refl })

  pub human_escalation-Quiet : AtSome Quiet (Escalation.human_escalation c w s)
  unfolding Escalation.human_escalation
  human_escalation-Quiet =
      AtSome-bind Quiet (trigger c s) _ (λ a _. record { same_plan = refl; same_completed = refl })
