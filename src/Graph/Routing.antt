-- ===== src/Graph/Routing.antt =====
-- The routers and the edges of `build_graph`: which node runs after a node.
pub mod Batch
pub mod Complete
pub mod Stuck
use agent_orchestration_syst.Common.{
  ℕ, String, Bool, true, false, not, ◌&&◌, ◌||◌, Option, none, some, List, [], ◌∷◌, map, any, all,
  ltb, leb, if◌then◌else◌, ◌>>=◌, get_or, length,
}
use agent_orchestration_syst.Common.Dict.{Dict, lookup, keys, values}
use agent_orchestration_syst.Schemas.{
  DecisionAction, ExecutionPlan, HumanDecision, ReviewResult, SubTask, SubtaskResult,
}
use agent_orchestration_syst.Graph.State.{
  EscalationSource, Node, intake, plan_task, route_batch, run_specialist, review,
  apply_review_feedback, notify_human, synthesize, deliver, reject_task, human_escalation,
  apply_human_decision, OrchestratorState,
}
use agent_orchestration_syst.Graph.World.{GraphConfig}
use agent_orchestration_syst.Graph.Nodes.Planning.{any_sensitive}
use agent_orchestration_syst.Graph.Nodes.Specialist.{SpecialistState}
use agent_orchestration_syst.Graph.Nodes.Escalation.{has_failed}
use agent_orchestration_syst.Graph.Nodes.Decision.{by_id, is_plan_source, is_specialist_retry}

-- Where a run goes: to one node, to a batch of specialists that run in parallel, or to `END`.
pub data Next : Type 0 where
  to : Node → Next
  send : List SpecialistState → Next
  finish : Next

-- The three tests of `route_after_plan`.
unfoldable pub needs_human : GraphConfig → OrchestratorState → ExecutionPlan → Bool
needs_human c s plan =
    ltb plan.confidence c.settings.plan_confidence_threshold
    || any_sensitive plan
    || s.require_human_approval

unfoldable pub route_after_plan : GraphConfig → OrchestratorState → Option Next
unfolding needs_human
route_after_plan c s =
    s.plan >>= λ plan. some (if needs_human c s plan then to human_escalation else to route_batch)

-- What the loop of `decide_next_batch` does with one subtask.
pub data Readiness : Type 0 where
  done stuck ready waiting : Readiness

abbrev pub succeeded : Option SubtaskResult → Bool
succeeded none = false
succeeded (some r) = r.success

unfoldable pub deps_done : Dict SubtaskResult → SubTask → Bool
deps_done completed subtask = all (λ dep. succeeded (lookup dep completed)) subtask.depends_on

unfoldable pub readiness : (limit : ℕ) → Dict SubtaskResult → Dict ℕ → String → SubTask → Readiness
readiness limit completed retry_counts id subtask =
    if succeeded (lookup id completed)
    then done
    else if has_failed (lookup id completed) && leb limit (get_or (lookup id retry_counts) 0)
    then stuck
    else if deps_done completed subtask
    then ready
    else waiting

abbrev pub is_ready : Readiness → Bool
is_ready ready = true
is_ready _ = false

abbrev pub is_stuck : Readiness → Bool
is_stuck stuck = true
is_stuck _ = false

-- The ids of the plan whose readiness passes a test, in the order of `by_id`.
unfoldable pub select : (String → SubTask → Bool) → Dict SubTask → List String
select p [] = []
select p ((id, t) ∷ rest) = let others = select p rest in if p id t then id ∷ others else others

unfoldable pub payload : OrchestratorState → ExecutionPlan → String → SpecialistState
payload s plan id = record {
  plan = plan;
  completed = s.completed;
  retry_counts = s.retry_counts;
  subtask_feedback = s.subtask_feedback;
  subtask_id = id;
  task_id = s.task_id;
}

-- `unresolved or len(completed) < len(by_id)`
abbrev pub incomplete : OrchestratorState → ExecutionPlan → Bool
incomplete s plan =
    any (λ (r : SubtaskResult). not r.success) (values s.completed)
    || ltb (length (keys s.completed)) (length (keys (by_id plan)))

-- The return of `decide_next_batch`, from its two lists.
unfoldable pub route_batch_of :
    OrchestratorState → ExecutionPlan → (stuck_ids ready_ids : List String) → Next
route_batch_of s plan (_ ∷ _) ready_ids = to human_escalation
route_batch_of s plan [] (id ∷ ids) = send (map (payload s plan) (id ∷ ids))
route_batch_of s plan [] [] = if incomplete s plan then to human_escalation else to review

unfoldable pub stuck_ids : GraphConfig → OrchestratorState → ExecutionPlan → List String
stuck_ids c s plan =
    select
      (λ id t.
        is_stuck (readiness c.settings.max_specialist_retries s.completed s.retry_counts id t))
      (by_id plan)

unfoldable pub ready_ids : GraphConfig → OrchestratorState → ExecutionPlan → List String
ready_ids c s plan =
    select
      (λ id t.
        is_ready (readiness c.settings.max_specialist_retries s.completed s.retry_counts id t))
      (by_id plan)

unfoldable pub decide_next_batch : GraphConfig → OrchestratorState → Option Next
decide_next_batch c s =
    s.plan >>= λ plan. some (route_batch_of s plan (stuck_ids c s plan) (ready_ids c s plan))

unfoldable pub route_after_review : GraphConfig → OrchestratorState → Option Next
route_after_review c s = s.review >>= λ (result : ReviewResult). some (
    if result.requires_human_review
    then to human_escalation
    else if result.approved
    then (if ltb result.score c.settings.review_score_threshold
        then to notify_human
        else to synthesize)
    else if leb c.settings.max_review_cycles s.review_cycles
    then to human_escalation
    else to apply_review_feedback)

unfoldable pub route_decision : DecisionAction → EscalationSource → Next
route_decision DecisionAction.reject source = to reject_task
route_decision DecisionAction.take_over source =
    if is_specialist_retry source then to route_batch else to deliver
route_decision DecisionAction.modify source =
    if is_plan_source source
    then to plan_task
    else if is_specialist_retry source
    then to route_batch
    else to apply_review_feedback
route_decision DecisionAction.approve source =
    if is_plan_source source || is_specialist_retry source then to route_batch else to synthesize

unfoldable pub route_after_decision : OrchestratorState → Option Next
unfolding route_decision
route_after_decision s = s.human_decision >>= λ (decision : HumanDecision).
    s.escalation_source >>= λ source. some (route_decision decision.action source)

-- The edges: `add_edge` and `add_conditional_edges`.
unfoldable pub next_of : GraphConfig → Node → OrchestratorState → Option Next
next_of c intake s = some (to plan_task)
next_of c plan_task s = route_after_plan c s
next_of c route_batch s = decide_next_batch c s
next_of c run_specialist s = some (to route_batch)
next_of c review s = route_after_review c s
next_of c apply_review_feedback s = some (to route_batch)
next_of c notify_human s = some (to synthesize)
next_of c synthesize s = some (to deliver)
next_of c deliver s = some finish
next_of c reject_task s = some finish
next_of c human_escalation s = some (to apply_human_decision)
next_of c apply_human_decision s = route_after_decision s
