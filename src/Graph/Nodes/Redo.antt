-- ===== src/Graph/Nodes/Redo.antt =====
-- How graph/build.py puts subtasks back to work: after a review that was not approved, and after
-- a human's decision on an escalation.
use agent_orchestration_syst.Common.{
  Option, ◌≡◌, refl, String, Bool, true, false, none, some, List, [], ◌∷◌, arith, if◌then◌else◌,
  ◌∙◌, get_or,
}
use agent_orchestration_syst.Common.Dict.{
  Dict, contains, lookup, assign, remove, lookup-assign, lookup-remove,
}
use agent_orchestration_syst.Schemas.{ExecutionPlan, DecisionAction, HumanDecision, ReviewResult}
use agent_orchestration_syst.Graph.State.{
  EscalationSource, review_sensitive, review_exhausted, OrchestratorState, Update, apply_update,
  apply_human_decision, apply_review_feedback, merge_optional_dict,
}
use agent_orchestration_syst.Graph.World.{GraphConfig, World}
use agent_orchestration_syst.Graph.Nodes.Effects.{Effects}
use agent_orchestration_syst.Graph.Nodes.Review
use agent_orchestration_syst.Graph.Nodes.Review.{delete_all, write_all}
use agent_orchestration_syst.Graph.Nodes.Decision
use agent_orchestration_syst.Graph.Routing.{to, next_of, route_after_decision}
use agent_orchestration_syst.Graph.Nodes.Decision.{modify_update, redo_update, redo_or_all}

module _ {ℓ} {V : Type ℓ} where
  lookup-merge-write_all :
      (k : String) (v : V) (ids : List String) (d : Dict V)
      → lookup k (merge_optional_dict d (write_all v ids))
        ≡ (if contains k ids then some v else lookup k d)
  unfolding merge_optional_dict
  lookup-merge-write_all k v [] d = refl
  lookup-merge-write_all k v (id ∷ ids) d =
      ground (arith, lookup-merge-write_all k v ids (assign id v d), lookup-assign id k v d)

  lookup-merge-delete_all :
      (k : String) (ids : List String) (d : Dict V)
      → lookup k (merge_optional_dict d (delete_all ids))
        ≡ (if contains k ids then none else lookup k d)
  unfolding merge_optional_dict
  lookup-merge-delete_all k [] d = refl
  lookup-merge-delete_all k (id ∷ ids) d =
      ground (arith, lookup-merge-delete_all k ids (remove id d), lookup-remove id k d)

-- The subtasks of a list lost their results and have a text as feedback; the other subtasks
-- have the results and the feedback that they had.
pub record Redone (s s' : OrchestratorState) (feedback : String) (ids : List String) : Type 0 where
  pub results :
      (id : String)
      → lookup id s'.completed ≡ (if contains id ids then none else lookup id s.completed)
  pub feedbacks :
      (id : String)
      → lookup id s'.subtask_feedback
        ≡ (if contains id ids then some feedback else lookup id s.subtask_feedback)

Redone-of_update :
    (s : OrchestratorState) (u : Update) (feedback : String) (ids : List String)
    → u.completed ≡ delete_all ids
    → u.subtask_feedback ≡ write_all feedback ids
    → Redone s (apply_update s u) feedback ids
unfolding apply_update
Redone-of_update s u feedback ids p q = record {
  results = λ id. rw p (lookup-merge-delete_all id ids s.completed);
  feedbacks = λ id. rw q (lookup-merge-write_all id feedback ids s.subtask_feedback);
}

-- `apply_review_feedback` puts exactly the subtasks that the reviewer names back to work, with
-- the reviewer's feedback, and keeps all other results and feedback.
pub apply_review_feedback-Redone :
    (c : GraphConfig) (w : World) (s : OrchestratorState) (result : ReviewResult) (e : Effects)
    → s.review ≡ some result
    → Review.apply_review_feedback c w s ≡ some e
    → Redone s (apply_update s e.update) result.feedback result.subtasks_to_redo
unfolding Review.apply_review_feedback
apply_review_feedback-Redone c w s result e given done =
    Redone-of_update s e.update result.feedback result.subtasks_to_redo (ground arith)
      (ground arith)

abbrev pub is_review_source : EscalationSource → Bool
is_review_source review_sensitive = true
is_review_source review_exhausted = true
is_review_source _ = false

-- The update of a decision to modify a reviewed deliverable.
modify-Redone :
    (c : GraphConfig) (w : World) (s : OrchestratorState) (result : ReviewResult)
    (decision : HumanDecision) (source : EscalationSource) (ids : List String) (e : Effects)
    → s.human_decision ≡ some decision
    → decision.action ≡ DecisionAction.modify
    → s.escalation_source ≡ some source
    → is_review_source source ≡ true
    → s.review ≡ some result
    → redo_or_all result.subtasks_to_redo s.plan ≡ some ids
    → Decision.apply_human_decision c w s ≡ some e
    → Redone s (apply_update s e.update) (get_or decision.feedback "") ids
      × ((apply_update s e.update).review ≡ some result)
      × (next_of c apply_human_decision (apply_update s e.update) ≡ some (to apply_review_feedback))
unfolding Decision.apply_human_decision modify_update redo_update
modify-Redone c w s result decision source ids e d a f r g i done = (
  Redone-of_update s e.update (get_or decision.feedback "") ids (ground arith) (ground arith),
  unfold apply_update in ground arith,
  unfold apply_update next_of route_after_decision in ground arith,
)

-- The subtasks that the reviewer named are redone.
redo_or_all-named :
    (named : List String) (plan : Option ExecutionPlan) (ids : List String) (id : String)
    → redo_or_all named plan ≡ some ids
    → contains id named ≡ true
    → contains id ids ≡ true
unfolding redo_or_all
redo_or_all-named [] plan ids id e h = ground (arith, h)
redo_or_all-named (n ∷ named) plan ids id e h = ground (arith, e, h)

-- A human who modifies a reviewed deliverable gives guidance, which is written as the feedback of
-- every subtask that the reviewer had named, and the node that runs next is
-- `apply_review_feedback`. It replaces the guidance of those subtasks by the reviewer's feedback.
pub guidance_overwritten :
    (c : GraphConfig) (w w' : World) (s : OrchestratorState) (result : ReviewResult)
    (decision : HumanDecision) (source : EscalationSource) (ids : List String) (e e' : Effects)
    (id : String)
    → s.human_decision ≡ some decision
    → decision.action ≡ DecisionAction.modify
    → s.escalation_source ≡ some source
    → is_review_source source ≡ true
    → s.review ≡ some result
    → redo_or_all result.subtasks_to_redo s.plan ≡ some ids
    → Decision.apply_human_decision c w s ≡ some e
    → Review.apply_review_feedback c w' (apply_update s e.update) ≡ some e'
    → contains id result.subtasks_to_redo ≡ true
    → (next_of c apply_human_decision (apply_update s e.update) ≡ some (to apply_review_feedback))
      × (lookup id (apply_update s e.update).subtask_feedback ≡ some (get_or decision.feedback ""))
      × (lookup id (apply_update (apply_update s e.update) e'.update).subtask_feedback
          ≡ some result.feedback)
guidance_overwritten c w w' s result decision source ids e e' id d a f r g i first second named = (
  (modify-Redone c w s result decision source ids e d a f r g i first).2,
  (modify-Redone c w s result decision source ids e d a f r g i first).0.feedbacks id
      ∙ rw (redo_or_all-named result.subtasks_to_redo s.plan ids id i named),
  (apply_review_feedback-Redone c w' (apply_update s e.update) result e'
          (modify-Redone c w s result decision source ids e d a f r g i first).1 second).feedbacks
        id
      ∙ rw named,
)
