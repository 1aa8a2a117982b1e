-- ===== src/Examples/States.antt =====
-- The theorems on single steps of graph/build.py, applied to states of the sample graph.
use agent_orchestration_syst.Common.{
  ℕ, ◌≡◌, ◌≢◌, ◌↔◌, refl, String, true, false, Option, none, some, [], ◌∷◌, arith, String-cases,
  subst, inl, inr,
}
use agent_orchestration_syst.Common.Dict.{Dict, lookup, assign, contains}
use agent_orchestration_syst.Graph.State.{Node, OrchestratorState, merge_optional_dict}
use agent_orchestration_syst.Graph.State.Merge.{merge_comm}
use agent_orchestration_syst.Graph.Nodes.Decision
use agent_orchestration_syst.Graph.Routing.{to, decide_next_batch, ready_ids}
use agent_orchestration_syst.Graph.Routing.Batch.{IsRunnable, ready_ids-iff-IsRunnable}
use agent_orchestration_syst.Graph.Routing.Complete.{AllSucceeded, InPlan, review-iff-AllSucceeded}
use agent_orchestration_syst.Graph.Run.{start}
use agent_orchestration_syst.Graph.Run.Samples.{config, plan_of, result}

-- After the plan of the sample task.
unfoldable pub planned : OrchestratorState
unfolding start
planned = record (start "task" "u" "t-1" false).state { plan = some (plan_of false) }

-- The first subtask has succeeded.
unfoldable pub half_done : OrchestratorState
unfolding planned
half_done = record planned { completed = ("st-1", result true "st-1") ∷ [] }

unfoldable pub all_done : OrchestratorState
unfolding planned
all_done = record planned {
  completed = ("st-1", result true "st-1") ∷ ("st-2", result true "st-2") ∷ [];
}

ready_ids-iff-IsRunnable_example :
    (contains "st-2" (ready_ids config half_done (plan_of false)) ≡ true)
    ↔ IsRunnable config half_done (plan_of false) "st-2"
ready_ids-iff-IsRunnable_example = ready_ids-iff-IsRunnable config half_done (plan_of false) "st-2"

all_done-InPlan : InPlan all_done (plan_of false)
unfolding all_done planned start Decision.index_from assign
all_done-InPlan = record { distinct = (refl, (refl, tt)); within = λ x h. h }

all_done-plan : all_done.plan ≡ some (plan_of false)
unfolding all_done planned
all_done-plan = refl

review-iff-AllSucceeded_example :
    (decide_next_batch config all_done ≡ some (to Node.review))
    ↔ AllSucceeded all_done (plan_of false)
review-iff-AllSucceeded_example =
    review-iff-AllSucceeded config all_done (plan_of false) all_done-plan all_done-InPlan

abbrev first_update : Dict (Option ℕ)
first_update = ("a", some 1) ∷ ("b", none) ∷ []

abbrev second_update : Dict (Option ℕ)
second_update = ("c", some 3) ∷ []

false≢true : contains "c" ("a" ∷ "b" ∷ []) ≢ true
false≢true e = ground (arith, e)

apart : (j : String) → contains j ("a" ∷ "b" ∷ []) ≡ true → contains j ("c" ∷ []) ≡ false
apart j h = elim (String-cases "c" j) [
  | inl (p, e) ↦ absurd (subst (λ k. contains k ("a" ∷ "b" ∷ []) ≢ true) p false≢true h)
  | inr (p, e) ↦ rw e refl
]

merge_comm_example :
    lookup "b"
      (merge_optional_dict (merge_optional_dict (("b", 2) ∷ []) first_update) second_update)
    ≡ lookup "b"
        (merge_optional_dict (merge_optional_dict (("b", 2) ∷ []) second_update) first_update)
merge_comm_example =
    merge_comm (("b", 2) ∷ []) first_update second_update "b" (refl, (refl, tt)) (refl, tt) apart
