-- ===== src/Examples/Stalls.antt =====
-- The escalation of a plan whose rest can never start, on states of the sample graph.
use agent_orchestration_syst.Common.{
  ◌≡◌, ◌≢◌, refl, true, false, none, some, [], ◌∷◌, arith, concat, strip, join, take_chars,
}
use agent_orchestration_syst.Common.Dict.{lookup, assign, remove}
use agent_orchestration_syst.Schemas.{DecisionAction, ExecutionPlan, value}
use agent_orchestration_syst.Graph.State.{
  Node, OrchestratorState, apply_update, merge_optional_dict,
}
use agent_orchestration_syst.Graph.Nodes.Effects.{Effects}
use agent_orchestration_syst.Graph.World.{usage_entry}
use agent_orchestration_syst.Graph.Nodes.Planning
use agent_orchestration_syst.Graph.Nodes.Review
use agent_orchestration_syst.Graph.Nodes.Escalation
use agent_orchestration_syst.Graph.Nodes.Escalation.{stuck_by_count}
use agent_orchestration_syst.Graph.Nodes.Decision
use agent_orchestration_syst.Graph.Nodes.Decision.{redo_or_all}
use agent_orchestration_syst.Graph.Routing
use agent_orchestration_syst.Graph.Routing.{to, next_of, ready_ids, stuck_ids, incomplete}
use agent_orchestration_syst.Graph.Run.{start}
use agent_orchestration_syst.Graph.Run.Stalls.{IsStalled, IsStalled-again}
use agent_orchestration_syst.Graph.Run.Samples.{config, plan_of, result, subtask}
use agent_orchestration_syst.Examples.States.{planned, half_done}
use agent_orchestration_syst.Examples.Redo.{effects, asked_of}

-- The second subtask waits for one that the plan does not have.
abbrev unresolvable : ExecutionPlan
unresolvable = record (plan_of false) {
  subtasks = subtask "st-1" [] false ∷ subtask "st-2" ("st-9" ∷ []) false ∷ [];
}

unfoldable stalled : OrchestratorState
unfolding half_done planned
stalled = record half_done { plan = some unresolvable }

unfoldable stalled_asked : Effects
stalled_asked =
    effects (Escalation.human_escalation config (asked_of DecisionAction.take_over) stalled)

unfoldable stalled_decided : Effects
stalled_decided = effects (
    Decision.apply_human_decision config (asked_of DecisionAction.take_over)
      (apply_update stalled stalled_asked.update))

-- What these states compute to.
record Computed : Type 0 where
  stalled_given : stalled.plan ≡ some unresolvable
  stalled_results : stalled.completed ≡ ("st-1", result true "st-1") ∷ []
  stalled_unreviewed : stalled.review ≡ none
  stalled_ready : ready_ids config stalled unresolvable ≡ []
  stalled_stuck : stuck_ids config stalled unresolvable ≡ []
  stalled_counted :
      stuck_by_count config.settings.max_specialist_retries stalled.completed stalled.retry_counts
      ≡ []
  stalled_unfinished : incomplete stalled unresolvable ≡ true
  stalled_asks :
      Escalation.human_escalation config (asked_of DecisionAction.take_over) stalled
      ≡ some stalled_asked
  stalled_decides :
      Decision.apply_human_decision config
        (asked_of DecisionAction.take_over)
        (apply_update stalled stalled_asked.update)
      ≡ some stalled_decided

computed : Computed
unfolding planned half_done stalled stalled_asked stalled_decided Planning.synthesize
    Planning.deliver Planning.remember start value usage_entry apply_update merge_optional_dict
    lookup assign remove concat join strip take_chars Planning.any_sensitive
    Review.apply_review_feedback Escalation.human_escalation Escalation.trigger
    Escalation.plan_trigger Escalation.choose_trigger Escalation.request Escalation.review_trigger
    Escalation.source_text Escalation.stuck_by_count Escalation.stuck_trigger
    Decision.apply_human_decision Decision.approve_update Decision.decision_update
    Decision.index_from Decision.modify_update Decision.redo_or_all Decision.redo_update
    Decision.take_over_update Decision.taken_over Routing.deps_done Routing.readiness ready_ids
    stuck_ids Routing.select
computed = record {
  stalled_given = refl;
  stalled_results = refl;
  stalled_unreviewed = refl;
  stalled_ready = refl;
  stalled_stuck = refl;
  stalled_counted = refl;
  stalled_unfinished = refl;
  stalled_asks = refl;
  stalled_decides = refl;
}

stalled-IsStalled : IsStalled config stalled unresolvable
stalled-IsStalled = record {
  given = computed.stalled_given;
  some_results = λ e. ground (arith, computed.stalled_results);
  unreviewed = computed.stalled_unreviewed;
  nothing_ready = computed.stalled_ready;
  nothing_stuck = computed.stalled_stuck;
  none_counted = computed.stalled_counted;
  unfinished = computed.stalled_unfinished;
}

take_over≢reject : DecisionAction.take_over ≢ DecisionAction.reject
take_over≢reject e = cc (e)

IsStalled-again_example :
    let s' = apply_update (apply_update stalled stalled_asked.update) stalled_decided.update in
    (next_of config Node.apply_human_decision s' ≡ some (to Node.route_batch))
    × (next_of config Node.route_batch s' ≡ some (to Node.human_escalation))
    × IsStalled config s' unresolvable
IsStalled-again_example =
    IsStalled-again config (asked_of DecisionAction.take_over) (asked_of DecisionAction.take_over)
      stalled unresolvable stalled_asked stalled_decided stalled-IsStalled take_over≢reject
      computed.stalled_asks computed.stalled_decides
