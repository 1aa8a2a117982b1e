-- ===== src/Graph/Nodes/Review.antt =====
-- The nodes `review`, `apply_review_feedback` and `notify_human`.
use agent_orchestration_syst.Common.{
  ◌+◌, String, Option, none, some, List, [], ◌∷◌, if◌then◌else◌, ◌>>=◌, concat,
}
use agent_orchestration_syst.Common.Dict.{Dict}
use agent_orchestration_syst.Schemas.{
  EscalationLevel, EscalationRequest, notification, ReviewResult,
}
use agent_orchestration_syst.Graph.State.{
  Attributes, success, warning, Node, of_node, OrchestratorState, review_low_score_notify,
  no_update,
}
use agent_orchestration_syst.Graph.World.{
  GraphConfig, review_dump, escalation_dump, World, usage_entry,
}
use agent_orchestration_syst.Graph.Nodes.Effects.{Effects, trace_event, saved}

-- `{sid: None for sid in ids}` and `{sid: value for sid in ids}`, as writes.
abbrev pub delete_all {ℓ} : {V : Type ℓ} → List String → Dict (Option V)
delete_all [] = []
delete_all (id ∷ ids) = (id, none) ∷ delete_all ids

abbrev pub write_all {ℓ} : {V : Type ℓ} → V → List String → Dict (Option V)
write_all v [] = []
write_all v (id ∷ ids) = (id, some v) ∷ write_all v ids

unfoldable pub review : GraphConfig → World → OrchestratorState → Option Effects
review c w s = w.review s.task s.completed >>= λ (result, agent).
    let review_cycles = s.review_cycles + 1 in
    some (record {
      update = record no_update {
        review = some result;
        review_cycles = some review_cycles;
        trace_events =
            trace_event w (of_node Node.review) "reviewer"
              (if result.approved then success else warning)
              (Attributes.reviewed result agent.last_prompt agent.last_response_text)
              (usage_entry (of_node Node.review) agent);
      };
      calls =
          saved c s.task_id (concat ("review:" ∷ c.format.number review_cycles ∷ []))
            (review_dump result);
    })

unfoldable pub apply_review_feedback : GraphConfig → World → OrchestratorState → Option Effects
apply_review_feedback c w s = s.review >>= λ (result : ReviewResult). some (record {
  update = record no_update {
    completed = delete_all result.subtasks_to_redo;
    subtask_feedback = write_all result.feedback result.subtasks_to_redo;
    trace_events =
        trace_event w (of_node Node.apply_review_feedback) "system" warning
          (Attributes.redo_ids result.subtasks_to_redo) [];
  };
  calls = [];
})

notice : GraphConfig → OrchestratorState → ReviewResult → EscalationRequest
notice c s result = record {
  level = EscalationLevel.notify;
  reason = concat (
      "Reviewer approved with a quality score ("
      ∷ c.format.two_digits result.score
      ∷ ") below the notify threshold ("
      ∷ c.format.score c.settings.review_score_threshold
      ∷ ")."
      ∷ []);
  context = notification s.task result;
}

unfoldable pub notify_human : GraphConfig → World → OrchestratorState → Option Effects
unfolding notice
notify_human c w s = s.review >>= λ (result : ReviewResult).
    let escalation = notice c s result in
    some (record {
      update = record no_update {
        escalation = some escalation;
        escalation_source = some review_low_score_notify;
        trace_events =
            trace_event w (of_node Node.notify_human) "system" warning
              (Attributes.reason escalation.reason) [];
      };
      calls = saved c s.task_id "notification" (escalation_dump escalation);
    })
