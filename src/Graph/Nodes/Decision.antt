-- ===== src/Graph/Nodes/Decision.antt =====
-- The node `apply_human_decision`.
pub mod Writes
use agent_orchestration_syst.Common.{
  String, Bool, true, false, Option, none, some, List, [], ◌∷◌, map, if◌then◌else◌, ◌>>=◌, concat,
  strip, get_or,
}
use agent_orchestration_syst.Common.Dict.{Dict, lookup, assign}
use agent_orchestration_syst.Schemas.{
  DecisionAction, EscalationRequest, ExecutionPlan, HumanDecision, ReviewResult, SubTask,
  SubtaskResult, stuck_subtask_ids,
}
use agent_orchestration_syst.Graph.State.{
  Attributes, EscalationSource, plan_low_confidence, plan_sensitive, plan_requested,
  specialist_retry, success, Node, of_node, OrchestratorState, Update, no_update,
}
use agent_orchestration_syst.Graph.World.{GraphConfig, World}
use agent_orchestration_syst.Graph.Nodes.Effects.{Effects, trace_event}
use agent_orchestration_syst.Graph.Nodes.Review.{delete_all, write_all}

-- `{st.id: st for st in plan.subtasks}`: of two subtasks with one id the later stays.
unfoldable pub index_from : Dict SubTask → List SubTask → Dict SubTask
index_from d [] = d
index_from d (t ∷ ts) = index_from (assign t.id t d) ts

abbrev pub by_id : ExecutionPlan → Dict SubTask
by_id plan = index_from [] plan.subtasks

-- `source in _PLAN_SOURCES`
abbrev pub is_plan_source : EscalationSource → Bool
is_plan_source plan_low_confidence = true
is_plan_source plan_sensitive = true
is_plan_source plan_requested = true
is_plan_source _ = false

abbrev pub is_specialist_retry : EscalationSource → Bool
is_specialist_retry specialist_retry = true
is_specialist_retry _ = false

-- The results that a human's output stands for. `by_id[sid]` raises for an unknown id.
unfoldable pub taken_over :
    Dict SubTask → (output : String) → List String → Option (Dict (Option SubtaskResult))
taken_over index output [] = some []
taken_over index output (id ∷ ids) = lookup id index >>= λ (subtask : SubTask).
    taken_over index output ids >>= λ rest. some (
      (
        id,
        some (record {
          subtask_id = id;
          specialist = subtask.specialist;
          success = true;
          output = some output;
          confidence = 1_000_000;
          tool_calls = [];
          error = none;
        }),
      )
      ∷ rest)

unfoldable pub take_over_update :
    OrchestratorState → EscalationSource → EscalationRequest → HumanDecision → Option Update
take_over_update s source escalation decision =
    let output = get_or decision.output "" in
    let stuck = s.plan >>= λ plan.
    taken_over (by_id plan) output (stuck_subtask_ids escalation.context) >>= λ results.
    some (record no_update { completed = results }) in
    if is_specialist_retry source
    then stuck
    else some (record no_update { final_output = some output })

-- `subtasks_to_redo or [st.id for st in plan.subtasks]`, which reads the plan only if it must.
unfoldable pub redo_or_all : List String → Option ExecutionPlan → Option (List String)
redo_or_all [] plan = plan >>= λ (p : ExecutionPlan). some (map (λ (t : SubTask). t.id) p.subtasks)
redo_or_all (id ∷ ids) plan = some (id ∷ ids)

unfoldable pub redo_update : OrchestratorState → (guidance : String) → Option Update
redo_update s guidance = s.review >>= λ (result : ReviewResult).
    redo_or_all result.subtasks_to_redo s.plan >>= λ redo_ids. some (record no_update {
      subtask_feedback = write_all guidance redo_ids;
      completed = delete_all redo_ids;
    })

unfoldable pub modify_update :
    OrchestratorState → EscalationSource → EscalationRequest → HumanDecision → Option Update
modify_update s source escalation decision =
    let guidance = get_or decision.feedback "" in
    let stuck_ids = stuck_subtask_ids escalation.context in
    if is_plan_source source
    then some (record no_update {
      memory_context =
          some (strip (concat (s.memory_context ∷ "\n\nHuman guidance: " ∷ guidance ∷ [])));
    })
    else if is_specialist_retry source
    then some (record no_update {
      subtask_feedback = write_all guidance stuck_ids;
      completed = delete_all stuck_ids;
      retry_counts = write_all 0 stuck_ids;
    })
    else redo_update s guidance

unfoldable pub approve_update : EscalationSource → EscalationRequest → Update
approve_update source escalation =
    let stuck_ids = stuck_subtask_ids escalation.context in
    if is_specialist_retry source
    then record no_update { completed = delete_all stuck_ids; retry_counts = write_all 0 stuck_ids }
    else no_update

unfoldable pub decision_update :
    OrchestratorState
    → EscalationSource
    → EscalationRequest
    → HumanDecision
    → DecisionAction
    → Option Update
unfolding take_over_update modify_update approve_update
decision_update s source escalation decision DecisionAction.take_over =
    take_over_update s source escalation decision
decision_update s source escalation decision DecisionAction.modify =
    modify_update s source escalation decision
decision_update s source escalation decision DecisionAction.approve =
    some (approve_update source escalation)
decision_update s source escalation decision DecisionAction.reject = some no_update

unfoldable pub apply_human_decision : GraphConfig → World → OrchestratorState → Option Effects
unfolding decision_update
apply_human_decision c w s = s.human_decision >>= λ (decision : HumanDecision).
    s.escalation_source >>= λ source. s.escalation >>= λ (escalation : EscalationRequest).
    decision_update s source escalation decision decision.action >>= λ (u : Update). some (record {
      update = record u {
        trace_events =
            trace_event w (of_node Node.apply_human_decision) "human" success
              (Attributes.decided decision.action source decision.feedback decision.output) [];
      };
      calls = [];
    })
