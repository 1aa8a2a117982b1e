-- ===== src/Graph/Nodes/Decision/Writes.antt =====
-- What `apply_human_decision` of graph/build.py writes: results of the plan's subtasks alone.
use agent_orchestration_syst.Common.{
  ◌≡◌, refl, String, none, some, List, [], ◌∷◌, arith, inl, inr, Bool-cases, Option-cases, AtSome,
  AtSome-bind, AtSome-of, get_or,
}
use agent_orchestration_syst.Common.Dict.{Dict, keys, lookup}
use agent_orchestration_syst.Common.Dict.Keys.{contains-keys}
use agent_orchestration_syst.Schemas.{
  DecisionAction, EscalationRequest, ExecutionPlan, HumanDecision, ReviewResult, SubTask,
  SubtaskResult, stuck_subtask_ids,
}
use agent_orchestration_syst.Graph.State.{EscalationSource, OrchestratorState, Update}
use agent_orchestration_syst.Graph.State.Merge.{Writes}
use agent_orchestration_syst.Graph.Nodes.Review.{delete_all}
use agent_orchestration_syst.Graph.Nodes.Decision.{
  by_id, decision_update, is_plan_source, is_specialist_retry, modify_update, approve_update,
  redo_or_all, redo_update, take_over_update, taken_over,
}

pub delete_all-Writes {ℓ} :
    (V : Type ℓ) (all_ids ids : List String) → Writes all_ids (delete_all {V = V} ids)
delete_all-Writes V all_ids [] = tt
delete_all-Writes V all_ids (id ∷ ids) = delete_all-Writes V all_ids ids

taken_over-AtSome :
    (index : Dict SubTask) (output : String) (ids : List String)
    → AtSome (Writes (keys index)) (taken_over index output ids)
unfolding taken_over
taken_over-AtSome index output [] = tt
taken_over-AtSome index output (id ∷ ids) = elim (Option-cases (lookup id index)) [
  | inl e ↦ rw e tt
  | inr (t, e) ↦ elim (Option-cases (taken_over index output ids)) [
    | inl f ↦ rw (e, f) tt
    | inr (rest, f) ↦
        rw (e, f)
          (ground (arith, contains-keys id index, e), rw f at (taken_over-AtSome index output ids))
  ]
]

-- An update that makes no plan, decides nothing and sets results of the given subtasks alone.
pub record Within (ids : List String) (u : Update) : Type 0 where
  pub same_plan : u.plan ≡ none
  pub same_decision : u.human_decision ≡ none
  pub same_source : u.escalation_source ≡ none
  pub writes : Writes ids u.completed

module _ (s : OrchestratorState) (plan : ExecutionPlan) (given : s.plan ≡ some plan)
    (source : EscalationSource) (escalation : EscalationRequest) (decision : HumanDecision) where
  abbrev Fits : Update → Type 0
  Fits = Within (keys (by_id plan))

  deletes :
      (u : Update)
      → u.plan ≡ none
      → u.human_decision ≡ none
      → u.escalation_source ≡ none
      → (ids : List String) → u.completed ≡ delete_all ids
      → Fits u
  deletes u p d f ids e = record {
    same_plan = p;
    same_decision = d;
    same_source = f;
    writes = rw e (delete_all-Writes SubtaskResult (keys (by_id plan)) ids);
  }

  take_over_update-Fits : AtSome Fits (take_over_update s source escalation decision)
  unfolding take_over_update
  take_over_update-Fits = elim (Bool-cases (is_specialist_retry source)) [
    | inr e ↦ rw e (deletes _ refl refl refl [] refl)
    | inl e ↦
        rw (e, given)
          (AtSome-bind Fits
            (taken_over (by_id plan) (get_or decision.output "")
              (stuck_subtask_ids escalation.context))
            _
            (λ results f. record {
              same_plan = refl;
              same_decision = refl;
              same_source = refl;
              writes =
                  AtSome-of (Writes (keys (by_id plan))) _ (taken_over-AtSome (by_id plan) _ _) f;
            }))
  ]

  redo_update-Fits : (guidance : String) → AtSome Fits (redo_update s guidance)
  unfolding redo_update
  redo_update-Fits guidance = AtSome-bind Fits s.review _ (λ result _.
      AtSome-bind Fits (redo_or_all result.subtasks_to_redo s.plan) _
        (λ ids _. deletes _ refl refl refl ids refl))

  modify_update-Fits : AtSome Fits (modify_update s source escalation decision)
  unfolding modify_update
  modify_update-Fits = elim (Bool-cases (is_plan_source source)) [
    | inl e ↦ rw e (deletes _ refl refl refl [] refl)
    | inr e ↦ elim (Bool-cases (is_specialist_retry source)) [
      | inl f ↦ rw (e, f) (deletes _ refl refl refl (stuck_subtask_ids escalation.context) refl)
      | inr f ↦ rw (e, f) (redo_update-Fits (get_or decision.feedback ""))
    ]
  ]

  approve_update-Fits : Fits (approve_update source escalation)
  unfolding approve_update
  approve_update-Fits = elim (Bool-cases (is_specialist_retry source)) [
    | inl f ↦ rw f (deletes _ refl refl refl (stuck_subtask_ids escalation.context) refl)
    | inr f ↦ rw f (deletes _ refl refl refl [] refl)
  ]

  pub decision_update-Fits :
      (action : DecisionAction)
      → AtSome (Within (keys (by_id plan))) (decision_update s source escalation decision action)
  unfolding decision_update
  decision_update-Fits DecisionAction.take_over = take_over_update-Fits
  decision_update-Fits DecisionAction.modify = modify_update-Fits
  decision_update-Fits DecisionAction.approve = approve_update-Fits
  decision_update-Fits DecisionAction.reject = deletes _ refl refl refl [] refl

-- The update of a decision leaves the decision itself and its source as they are.
pub record Undecided (u : Update) : Type 0 where
  pub same_decision : u.human_decision ≡ none
  pub same_source : u.escalation_source ≡ none

plain : (u : Update) → u.human_decision ≡ none → u.escalation_source ≡ none → Undecided u
plain u p q = record { same_decision = p; same_source = q }

module _ (s : OrchestratorState) (source : EscalationSource) (escalation : EscalationRequest)
    (decision : HumanDecision) where
  take_over_update-Undecided : AtSome Undecided (take_over_update s source escalation decision)
  unfolding take_over_update
  take_over_update-Undecided = elim (Bool-cases (is_specialist_retry source)) [
    | inr e ↦ rw e (plain _ refl refl)
    | inl e ↦ rw e (
        AtSome-bind Undecided s.plan _ (λ (plan : ExecutionPlan) _.
          AtSome-bind Undecided (taken_over (by_id plan) _ _) _ (λ results _. plain _ refl refl)))
  ]

  redo_update-Undecided : (guidance : String) → AtSome Undecided (redo_update s guidance)
  unfolding redo_update
  redo_update-Undecided guidance = AtSome-bind Undecided s.review _ (λ (result : ReviewResult) _.
      AtSome-bind Undecided (redo_or_all result.subtasks_to_redo s.plan) _
        (λ ids _. plain _ refl refl))

  modify_update-Undecided : AtSome Undecided (modify_update s source escalation decision)
  unfolding modify_update
  modify_update-Undecided = elim (Bool-cases (is_plan_source source)) [
    | inl e ↦ rw e (plain _ refl refl)
    | inr e ↦ elim (Bool-cases (is_specialist_retry source)) [
      | inl f ↦ rw (e, f) (plain _ refl refl)
      | inr f ↦ rw (e, f) (redo_update-Undecided (get_or decision.feedback ""))
    ]
  ]

  approve_update-Undecided : Undecided (approve_update source escalation)
  unfolding approve_update
  approve_update-Undecided = elim (Bool-cases (is_specialist_retry source)) [
    | inl f ↦ rw f (plain _ refl refl)
    | inr f ↦ rw f (plain _ refl refl)
  ]

  pub decision_update-Undecided :
      (action : DecisionAction)
      → AtSome Undecided (decision_update s source escalation decision action)
  unfolding decision_update
  decision_update-Undecided DecisionAction.take_over = take_over_update-Undecided
  decision_update-Undecided DecisionAction.modify = modify_update-Undecided
  decision_update-Undecided DecisionAction.approve = approve_update-Undecided
  decision_update-Undecided DecisionAction.reject = plain _ refl refl
