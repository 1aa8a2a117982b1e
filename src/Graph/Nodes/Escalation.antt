-- ===== src/Graph/Nodes/Escalation.antt =====
-- The node `human_escalation`. It runs up to `interrupt`, which suspends the graph, and runs again
-- from its top when the graph is resumed with a decision.
use agent_orchestration_syst.Common.{
  ℕ, String, Bool, false, not, ◌&&◌, Option, none, some, List, [], ◌∷◌, ltb, leb, if◌then◌else◌,
  ◌>>=◌, concat,
}
use agent_orchestration_syst.Common.Dict.{Dict, lookup}
use agent_orchestration_syst.Schemas.{
  EscalationLevel, EscalationRequest, ExecutionPlan, packaged, ReviewResult, SubtaskResult,
}
use agent_orchestration_syst.Graph.State.{
  Attributes, EscalationSource, plan_low_confidence, plan_sensitive, plan_requested,
  review_sensitive, review_exhausted, specialist_retry, review_low_score_notify, escalated, Node,
  of_node, OrchestratorState, no_update,
}
use agent_orchestration_syst.Graph.World.{GraphConfig, escalation_dump, World}
use agent_orchestration_syst.Graph.Nodes.Effects.{Effects, trace_event, saved}
use agent_orchestration_syst.Graph.Nodes.Planning.{any_sensitive}

-- The text of a source, as it stands in the field name of working memory.
unfoldable pub source_text : EscalationSource → String
source_text plan_low_confidence = "plan_low_confidence"
source_text plan_sensitive = "plan_sensitive"
source_text plan_requested = "plan_requested"
source_text review_sensitive = "review_sensitive"
source_text review_exhausted = "review_exhausted"
source_text specialist_retry = "specialist_retry"
source_text review_low_score_notify = "review_low_score_notify"

-- Level, reason and source of an escalation, and the subtasks that are stuck.
pub record Trigger : Type 0 where
  pub level : EscalationLevel
  pub reason : String
  pub source : EscalationSource
  pub stuck_ids : List String

abbrev pub has_failed : Option SubtaskResult → Bool
has_failed none = false
has_failed (some r) = not r.success

-- The comprehension over `retry_counts.items()`.
unfoldable pub stuck_by_count : (limit : ℕ) → Dict SubtaskResult → Dict ℕ → List String
stuck_by_count limit completed [] = []
stuck_by_count limit completed ((id, count) ∷ rest) =
    let others = stuck_by_count limit completed rest in
    if leb limit count && has_failed (lookup id completed) then id ∷ others else others

unfoldable pub plan_trigger : GraphConfig → ExecutionPlan → Trigger
plan_trigger c plan =
    if ltb plan.confidence c.settings.plan_confidence_threshold
    then record {
      level = EscalationLevel.approve_plan;
      reason = "Supervisor's plan confidence is below threshold.";
      source = plan_low_confidence;
      stuck_ids = [];
    }
    else if any_sensitive plan
    then record {
      level = EscalationLevel.approve_plan;
      reason =
          "This plan includes a sensitive operation (financial, data-destructive, or external communication).";
      source = plan_sensitive;
      stuck_ids = [];
    }
    else record {
      level = EscalationLevel.approve_plan;
      reason = "Human review of the plan was explicitly requested.";
      source = plan_requested;
      stuck_ids = [];
    }

unfoldable pub review_trigger : GraphConfig → OrchestratorState → ReviewResult → Trigger
review_trigger c s result =
    if result.requires_human_review
    then record {
      level = EscalationLevel.approve_action;
      reason = "Reviewer flagged this deliverable as sensitive or high-risk.";
      source = review_sensitive;
      stuck_ids = [];
    }
    else record {
      level = EscalationLevel.take_over;
      reason = concat (
          "Reviewer did not approve the output after "
          ∷ c.format.number s.review_cycles
          ∷ " attempt(s)."
          ∷ []);
      source = review_exhausted;
      stuck_ids = [];
    }

unfoldable pub stuck_trigger : GraphConfig → OrchestratorState → Trigger
stuck_trigger c s = record {
  level = EscalationLevel.take_over;
  reason = "A specialist could not complete its subtask after the retry limit.";
  source = specialist_retry;
  stuck_ids = stuck_by_count c.settings.max_specialist_retries s.completed s.retry_counts;
}

-- The chain of tests on `completed` and `review`.
unfoldable pub choose_trigger :
    GraphConfig → OrchestratorState → Dict SubtaskResult → Option ReviewResult → Option Trigger
choose_trigger c s completed (some result) = some (review_trigger c s result)
choose_trigger c s [] none = s.plan >>= λ plan. some (plan_trigger c plan)
choose_trigger c s (_ ∷ _) none = some (stuck_trigger c s)

unfoldable pub trigger : GraphConfig → OrchestratorState → Option Trigger
unfolding choose_trigger
trigger c s = choose_trigger c s s.completed s.review

unfoldable pub request : OrchestratorState → Trigger → EscalationRequest
request s t = record {
  level = t.level;
  reason = t.reason;
  context = packaged (record {
    task = s.task;
    user_id = s.user_id;
    plan = s.plan;
    completed = s.completed;
    review = s.review;
    memory_context = s.memory_context;
    stuck_subtask_ids = t.stuck_ids;
  });
}

-- The payload of `interrupt`, and the run that a resume makes of the node.
unfoldable pub interrupt_payload :
    GraphConfig → OrchestratorState → Option (EscalationSource × EscalationRequest)
interrupt_payload c s = trigger c s >>= λ (t : Trigger). some (t.source, request s t)

unfoldable pub human_escalation : GraphConfig → World → OrchestratorState → Option Effects
human_escalation c w s = trigger c s >>= λ (t : Trigger).
    let escalation = request s t in
    some (record {
      update = record no_update {
        escalation = some escalation;
        escalation_source = some t.source;
        human_decision = some w.decision;
        trace_events =
            trace_event w (of_node Node.human_escalation) "human" escalated
              (Attributes.escalated_to t.level t.reason t.source w.decision.action) [];
      };
      calls =
          saved c s.task_id (concat ("escalation:" ∷ source_text t.source ∷ []))
            (escalation_dump escalation);
    })
