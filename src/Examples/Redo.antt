-- ===== src/Examples/Redo.antt =====
-- What becomes of a reviewer's feedback and of a human's guidance, on states of the sample graph.
use agent_orchestration_syst.Common.{
  ◌≡◌, refl, false, Option, some, [], ◌∷◌, get_or, concat, strip, join, take_chars,
}
use agent_orchestration_syst.Common.Dict.{lookup, assign, remove}
use agent_orchestration_syst.Schemas.{
  DecisionAction, EscalationLevel, packaged, ReviewResult, value,
}
use agent_orchestration_syst.Graph.State.{
  EscalationSource, Node, OrchestratorState, apply_update, merge_optional_dict, no_update,
}
use agent_orchestration_syst.Graph.Nodes.Effects.{Effects}
use agent_orchestration_syst.Graph.World.{World, usage_entry}
use agent_orchestration_syst.Graph.Nodes.Planning
use agent_orchestration_syst.Graph.Nodes.Review
use agent_orchestration_syst.Graph.Nodes.Escalation
use agent_orchestration_syst.Graph.Nodes.Escalation.{stuck_by_count}
use agent_orchestration_syst.Graph.Nodes.Decision
use agent_orchestration_syst.Graph.Nodes.Decision.{redo_or_all}
use agent_orchestration_syst.Graph.Nodes.Redo.{
  Redone, apply_review_feedback-Redone, guidance_overwritten,
}
use agent_orchestration_syst.Graph.Routing
use agent_orchestration_syst.Graph.Routing.{to, next_of, ready_ids, stuck_ids}
use agent_orchestration_syst.Graph.Run.{start}
use agent_orchestration_syst.Graph.Run.Samples.{config, plan_of, world_of, decide}
use agent_orchestration_syst.Examples.States.{planned, all_done}

-- The reviewer has sent the first subtask back.
abbrev pub redo : ReviewResult
redo = record {
  approved = false;
  score = 300_000;
  feedback = "more detail";
  subtasks_to_redo = "st-1" ∷ [];
  requires_human_review = false;
}

unfoldable pub sent_back : OrchestratorState
unfolding all_done planned
sent_back = record all_done { review = some redo }

-- What a node does, where it does not raise.
abbrev pub effects : Option Effects → Effects
effects o = get_or o (record { update = no_update; calls = [] })

abbrev pub asked_of : DecisionAction → World
asked_of action = world_of false "" action 0

unfoldable redone : Effects
redone = effects (Review.apply_review_feedback config (asked_of DecisionAction.modify) sent_back)

-- The human is asked about the review and wants another attempt.
unfoldable asked : OrchestratorState
unfolding sent_back all_done planned
asked = record sent_back {
  escalation = some (record {
    level = EscalationLevel.approve_action;
    reason = "";
    context = packaged (record {
      task = "task";
      user_id = some "u";
      plan = some (plan_of false);
      completed = [];
      review = some redo;
      memory_context = "";
      stuck_subtask_ids = [];
    });
  });
  escalation_source = some EscalationSource.review_exhausted;
  human_decision = some (decide DecisionAction.modify);
}

unfoldable guided : Effects
guided = effects (Decision.apply_human_decision config (asked_of DecisionAction.modify) asked)

unfoldable overwritten : Effects
overwritten = effects (
    Review.apply_review_feedback config (asked_of DecisionAction.modify)
      (apply_update asked guided.update))

-- What these states compute to.
record Computed : Type 0 where
  redo_done :
      Review.apply_review_feedback config (asked_of DecisionAction.modify) sent_back ≡ some redone
  redo_review : sent_back.review ≡ some redo
  asked_decision : asked.human_decision ≡ some (decide DecisionAction.modify)
  asked_source : asked.escalation_source ≡ some EscalationSource.review_exhausted
  asked_review : asked.review ≡ some redo
  guided_done :
      Decision.apply_human_decision config (asked_of DecisionAction.modify) asked ≡ some guided
  overwritten_done :
      Review.apply_review_feedback config
        (asked_of DecisionAction.modify)
        (apply_update asked guided.update)
      ≡ some overwritten
  redo_ids : redo_or_all redo.subtasks_to_redo asked.plan ≡ some ("st-1" ∷ [])

computed : Computed
unfolding planned all_done sent_back redone asked guided overwritten Planning.synthesize
    Planning.deliver Planning.remember start value usage_entry apply_update merge_optional_dict
    lookup assign remove concat join strip take_chars Planning.any_sensitive
    Review.apply_review_feedback Escalation.human_escalation Escalation.trigger
    Escalation.plan_trigger Escalation.choose_trigger Escalation.request Escalation.review_trigger
    Escalation.source_text Escalation.stuck_by_count Escalation.stuck_trigger
    Decision.apply_human_decision Decision.approve_update Decision.decision_update
    Decision.index_from Decision.modify_update Decision.redo_or_all Decision.redo_update
    Decision.take_over_update Decision.taken_over Routing.deps_done Routing.readiness ready_ids
    stuck_ids Routing.select
computed = record {
  redo_done = refl;
  redo_review = refl;
  asked_decision = refl;
  asked_source = refl;
  asked_review = refl;
  guided_done = refl;
  overwritten_done = refl;
  redo_ids = refl;
}

apply_review_feedback-Redone_example :
    Redone sent_back (apply_update sent_back redone.update) "more detail" ("st-1" ∷ [])
apply_review_feedback-Redone_example =
    apply_review_feedback-Redone config (asked_of DecisionAction.modify) sent_back redo redone
      computed.redo_review computed.redo_done

guidance_overwritten_example :
    (next_of config Node.apply_human_decision (apply_update asked guided.update)
      ≡ some (to Node.apply_review_feedback))
    × (lookup "st-1" (apply_update asked guided.update).subtask_feedback ≡ some "guidance")
    × (lookup "st-1"
          (apply_update (apply_update asked guided.update) overwritten.update).subtask_feedback
        ≡ some "more detail")
guidance_overwritten_example =
    guidance_overwritten config (asked_of DecisionAction.modify) (asked_of DecisionAction.modify)
      asked redo (decide DecisionAction.modify) EscalationSource.review_exhausted ("st-1" ∷ [])
      guided overwritten "st-1" computed.asked_decision refl computed.asked_source refl
      computed.asked_review computed.redo_ids computed.guided_done computed.overwritten_done refl
