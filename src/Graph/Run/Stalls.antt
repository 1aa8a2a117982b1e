-- ===== src/Graph/Run/Stalls.antt =====
-- What graph/build.py does with a run whose plan cannot go on.
use agent_orchestration_syst.Common.{◌≡◌, ◌≢◌, refl, true, none, some, [], ◌∷◌, arith, ap, ◌∙◌}
use agent_orchestration_syst.Common.Dict.{Dict}
use agent_orchestration_syst.Schemas.{
  DecisionAction, EscalationRequest, ExecutionPlan, HumanDecision, SubtaskResult, stuck_subtask_ids,
}
use agent_orchestration_syst.Graph.State.{
  specialist_retry, human_escalation, apply_human_decision, route_batch, OrchestratorState,
  apply_update, merge_optional_dict,
}
use agent_orchestration_syst.Graph.World.{GraphConfig, World}
use agent_orchestration_syst.Graph.Nodes.Effects.{Effects}
use agent_orchestration_syst.Graph.Nodes.Escalation
use agent_orchestration_syst.Graph.Nodes.Escalation.{
  trigger, choose_trigger, stuck_trigger, request, stuck_by_count,
}
use agent_orchestration_syst.Graph.Nodes.Decision
use agent_orchestration_syst.Graph.Nodes.Decision.{
  approve_update, modify_update, take_over_update, taken_over,
}
use agent_orchestration_syst.Graph.Routing.{
  to, next_of, route_after_decision, decide_next_batch, route_batch_of, incomplete, stuck_ids,
  ready_ids,
}

-- Work has been done, no review has been made, and the rest of the plan can never start: nothing
-- is ready, and nothing has failed too often.
pub record IsStalled (c : GraphConfig) (s : OrchestratorState) (plan : ExecutionPlan) : Type 0 where
  pub given : s.plan ≡ some plan
  pub some_results : s.completed ≢ []
  pub unreviewed : s.review ≡ none
  pub nothing_ready : ready_ids c s plan ≡ []
  pub nothing_stuck : stuck_ids c s plan ≡ []
  pub none_counted :
      stuck_by_count c.settings.max_specialist_retries s.completed s.retry_counts ≡ []
  pub unfinished : incomplete s plan ≡ true

-- What an escalation and the decision on it leave alone in a stalled state.
record Untouched (s s' : OrchestratorState) : Type 0 where
  plan : s'.plan ≡ s.plan
  completed : s'.completed ≡ s.completed
  retry_counts : s'.retry_counts ≡ s.retry_counts
  review : s'.review ≡ s.review

Untouched-IsStalled :
    (c : GraphConfig) (s s' : OrchestratorState) (plan : ExecutionPlan)
    → Untouched s s'
    → IsStalled c s plan
    → IsStalled c s' plan
unfolding ready_ids stuck_ids
Untouched-IsStalled c s s' plan same h = record {
  given = same.plan ∙ h.given;
  some_results = λ e. h.some_results (cc (same.completed));
  unreviewed = same.review ∙ h.unreviewed;
  nothing_ready = rw (same.completed, same.retry_counts) h.nothing_ready;
  nothing_stuck = rw (same.completed, same.retry_counts) h.nothing_stuck;
  none_counted = rw (same.completed, same.retry_counts) h.none_counted;
  unfinished = rw (same.completed) h.unfinished;
}

decide_next_batch-stalled :
    (c : GraphConfig) (s : OrchestratorState) (plan : ExecutionPlan)
    → IsStalled c s plan
    → decide_next_batch c s ≡ some (to human_escalation)
unfolding decide_next_batch route_batch_of
decide_next_batch-stalled c s plan h =
    ground (arith, h.given, h.nothing_ready, h.nothing_stuck, h.unfinished)

choose_trigger-stalled :
    (c : GraphConfig) (s : OrchestratorState) (completed : Dict SubtaskResult)
    → completed ≢ []
    → choose_trigger c s completed none ≡ some (stuck_trigger c s)
unfolding choose_trigger
choose_trigger-stalled c s [] h = absurd (h refl)
choose_trigger-stalled c s (x ∷ xs) h = refl

trigger-stalled :
    (c : GraphConfig) (s : OrchestratorState) (plan : ExecutionPlan)
    → IsStalled c s plan
    → trigger c s ≡ some (stuck_trigger c s)
unfolding trigger
trigger-stalled c s plan h =
    ap (choose_trigger c s s.completed) h.unreviewed
    ∙ choose_trigger-stalled c s s.completed h.some_results

-- The state after the escalation of a stalled run: a human is asked about no subtask at all.
record Asked (s s' : OrchestratorState) (decision : HumanDecision) : Type 0 where
  untouched : Untouched s s'
  source : s'.escalation_source ≡ some specialist_retry
  asked : EscalationRequest
  escalation : s'.escalation ≡ some asked
  no_ids : stuck_subtask_ids asked.context ≡ []
  held : s'.human_decision ≡ some decision

human_escalation-Asked :
    (c : GraphConfig) (w : World) (s : OrchestratorState) (plan : ExecutionPlan) (e : Effects)
    → IsStalled c s plan
    → Escalation.human_escalation c w s ≡ some e
    → Asked s (apply_update s e.update) w.decision
unfolding Escalation.human_escalation stuck_trigger request apply_update merge_optional_dict
human_escalation-Asked c w s plan e h done =
    let t = trigger-stalled c s plan h in
    record {
      untouched = record {
        plan = ground arith;
        completed = ground arith;
        retry_counts = ground arith;
        review = ground arith;
      };
      source = ground arith;
      asked = request s (stuck_trigger c s);
      escalation = ground arith;
      no_ids = h.none_counted;
      held = ground arith;
    }

-- A decision about no subtask changes nothing and, unless it rejects, starts the batch again.
decision-Untouched :
    (c : GraphConfig) (w : World) (s s' : OrchestratorState) (decision : HumanDecision)
    (e : Effects)
    → Asked s s' decision
    → decision.action ≢ DecisionAction.reject
    → Decision.apply_human_decision c w s' ≡ some e
    → Untouched s' (apply_update s' e.update)
      × (next_of c apply_human_decision (apply_update s' e.update) ≡ some (to route_batch))
unfolding Decision.apply_human_decision approve_update modify_update take_over_update taken_over
    apply_update merge_optional_dict next_of route_after_decision
decision-Untouched c w s s' decision e h n done = (
  record {
    plan = ground arith;
    completed = ground arith;
    retry_counts = ground arith;
    review = ground arith;
  },
  ground arith,
)

Untouched-trans :
    (s s' s'' : OrchestratorState) → Untouched s s' → Untouched s' s'' → Untouched s s''
Untouched-trans s s' s'' h k = record {
  plan = k.plan ∙ h.plan;
  completed = k.completed ∙ h.completed;
  retry_counts = k.retry_counts ∙ h.retry_counts;
  review = k.review ∙ h.review;
}

-- If work has been done and the rest of the plan can never start, the run escalates, and every
-- decision but a rejection, taking over included, leads back to the same escalation: the state
-- is stalled as before and goes to the human again.
pub IsStalled-again :
    (c : GraphConfig) (w w' : World) (s : OrchestratorState) (plan : ExecutionPlan) (e e' : Effects)
    → IsStalled c s plan
    → w.decision.action ≢ DecisionAction.reject
    → Escalation.human_escalation c w s ≡ some e
    → Decision.apply_human_decision c w' (apply_update s e.update) ≡ some e'
    → let s' = apply_update (apply_update s e.update) e'.update in
      (next_of c apply_human_decision s' ≡ some (to route_batch))
      × (next_of c route_batch s' ≡ some (to human_escalation))
      × IsStalled c s' plan
unfolding next_of
IsStalled-again c w w' s plan e e' h n first second =
    let asked = human_escalation-Asked c w s plan e h first in
    let (same, routed) =
      decision-Untouched c w' s (apply_update s e.update) w.decision e' asked n second in
    let stalled = Untouched-IsStalled c s _ plan (Untouched-trans s _ _ asked.untouched same) h in
    (routed, decide_next_batch-stalled c _ plan stalled, stalled)
