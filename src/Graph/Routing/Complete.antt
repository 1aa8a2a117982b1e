-- ===== src/Graph/Routing/Complete.antt =====
-- When `decide_next_batch` of graph/build.py sends a run on to the review.
use agent_orchestration_syst.Common.{
  ◌≡◌, refl, ◌≤◌, ◌↔◌, String, Bool, true, false, not, some, List, [], ◌∷◌, arith, eq_iff, inl, inr,
  any, length, Option-cases, ◌∙◌, ap,
}
use agent_orchestration_syst.Common.Dict.{Dict, contains, Distinct, keys, values, lookup}
use agent_orchestration_syst.Common.Dict.Keys.{
  contains-keys, Within, Within-of_length-le, length-Within-le,
}
use agent_orchestration_syst.Schemas.{ExecutionPlan, SubtaskResult}
use agent_orchestration_syst.Graph.State.{OrchestratorState, review}
use agent_orchestration_syst.Graph.World.{GraphConfig}
use agent_orchestration_syst.Graph.Nodes.Decision.{by_id}
use agent_orchestration_syst.Graph.Routing.{
  to, readiness, stuck_ids, ready_ids, route_batch_of, decide_next_batch,
}
use agent_orchestration_syst.Graph.Routing.Batch.{
  by_id-Distinct, contains-stuck_ids, contains-ready_ids,
}

-- The results of a run belong to the subtasks of its plan, one to each at most.
pub record InPlan (s : OrchestratorState) (plan : ExecutionPlan) : Type 0 where
  pub distinct : Distinct (keys s.completed)
  pub within : Within (keys s.completed) (keys (by_id plan))

-- Every subtask of the plan has a result, and it is a success.
abbrev pub AllSucceeded : OrchestratorState → ExecutionPlan → Type 0
AllSucceeded s plan =
    (id : String)
    → contains id (keys (by_id plan)) ≡ true
    → (r : SubtaskResult) × (lookup id s.completed ≡ some r) × (r.success ≡ true)

module _ {ℓ} {V : Type ℓ} (p : V → Bool) where
  any-values→lookup :
      (k : String) (d : Dict V) {v : V}
      → any p (values d) ≡ false
      → lookup k d ≡ some v
      → p v ≡ false
  unfolding lookup
  any-values→lookup k [] h e = cc
  any-values→lookup k ((j, w) ∷ d) {v} h e = ground (arith, any-values→lookup k d {v = v})

  lookup→any-values :
      (d : Dict V)
      → Distinct (keys d)
      → ((k : String) (v : V) → lookup k d ≡ some v → p v ≡ false)
      → any p (values d) ≡ false
  unfolding lookup
  lookup→any-values [] h f = refl
  lookup→any-values ((j, w) ∷ d) h f = ground (
    arith,
    f j w (ground (arith, eq_iff j j)),
    lookup→any-values d h.1 (λ k v e. f k v (ground (arith, eq_iff j k, contains-keys j d, h.0))),
  )

nil_of_contains : (xs : List String) → ((x : String) → contains x xs ≡ false) → xs ≡ []
nil_of_contains [] h = refl
nil_of_contains (x ∷ xs) h = absurd (ground (arith, h x, eq_iff x x))

route_batch_of-review :
    (s : OrchestratorState) (plan : ExecutionPlan) (xs ys : List String)
    → route_batch_of s plan xs ys ≡ to review
    → (any (λ (r : SubtaskResult). not r.success) (values s.completed) ≡ false)
      × (length (keys (by_id plan)) ≤ length (keys s.completed))
unfolding route_batch_of
route_batch_of-review s plan [] [] h = ground arith
route_batch_of-review s plan (x ∷ xs) ys h = ground arith
route_batch_of-review s plan [] (y ∷ ys) h = ground arith

module _ (c : GraphConfig) (s : OrchestratorState) (plan : ExecutionPlan) where
  pub decide_next_batch-of_plan :
      s.plan ≡ some plan
      → decide_next_batch c s
        ≡ some (route_batch_of s plan (stuck_ids c s plan) (ready_ids c s plan))
  unfolding decide_next_batch
  decide_next_batch-of_plan e = rw e

  pub review→AllSucceeded :
      s.plan ≡ some plan
      → InPlan s plan
      → decide_next_batch c s ≡ some (to review)
      → AllSucceeded s plan
  review→AllSucceeded e i h id m =
      let (none_failed, long) =
        route_batch_of-review s plan (stuck_ids c s plan) (ready_ids c s plan)
          (ground (arith, decide_next_batch-of_plan e)) in
      let there =
        Within-of_length-le (keys s.completed) (keys (by_id plan)) i.distinct i.within long id m in
      elim (Option-cases (lookup id s.completed)) [
        | inl n ↦ absurd (ground (arith, contains-keys id s.completed, n))
        | inr (r, f) ↦ (
          r,
          f,
          ground (
            arith,
            any-values→lookup (λ (r : SubtaskResult). not r.success) id s.completed {v = r}
                none_failed f,
          ),
        )
      ]

  no_ready : AllSucceeded s plan → ready_ids c s plan ≡ []
  unfolding readiness
  no_ready all_done = nil_of_contains (ready_ids c s plan) λ id.
      elim (Option-cases (lookup id (by_id plan))) [
        | inl e ↦ ground (arith, contains-ready_ids c s plan id)
        | inr (t, e) ↦
            let (r, f, ok) = all_done id (ground (arith, contains-keys id (by_id plan))) in
            ground (arith, contains-ready_ids c s plan id)
      ]

  no_stuck : AllSucceeded s plan → stuck_ids c s plan ≡ []
  unfolding readiness
  no_stuck all_done = nil_of_contains (stuck_ids c s plan) λ id.
      elim (Option-cases (lookup id (by_id plan))) [
        | inl e ↦ ground (arith, contains-stuck_ids c s plan id)
        | inr (t, e) ↦
            let (r, f, ok) = all_done id (ground (arith, contains-keys id (by_id plan))) in
            ground (arith, contains-stuck_ids c s plan id)
      ]

  none_failed :
      InPlan s plan
      → AllSucceeded s plan
      → any (λ (r : SubtaskResult). not r.success) (values s.completed) ≡ false
  none_failed i all_done =
      lookup→any-values (λ (r : SubtaskResult). not r.success) s.completed i.distinct
        λ k v e.
          let (r, f, ok) = all_done k (i.within k (ground (arith, contains-keys k s.completed))) in
          ground arith

  as_long : AllSucceeded s plan → length (keys (by_id plan)) ≤ length (keys s.completed)
  as_long all_done =
      length-Within-le (keys (by_id plan)) (keys s.completed) (by_id-Distinct plan)
        λ id m. let (r, f, ok) = all_done id m in ground (arith, contains-keys id s.completed)

  route_batch_of-nil : InPlan s plan → AllSucceeded s plan → route_batch_of s plan [] [] ≡ to review
  unfolding route_batch_of
  route_batch_of-nil i all_done = ground (arith, none_failed i all_done, as_long all_done)

  AllSucceeded→review :
      s.plan ≡ some plan
      → InPlan s plan
      → AllSucceeded s plan
      → decide_next_batch c s ≡ some (to review)
  AllSucceeded→review e i all_done =
      decide_next_batch-of_plan e
      ∙ rw (no_stuck all_done, no_ready all_done) (ap some (route_batch_of-nil i all_done))

  -- In a state whose results belong to its plan, the next step is the review exactly when every
  -- subtask of the plan has succeeded.
  pub review-iff-AllSucceeded :
      s.plan ≡ some plan
      → InPlan s plan
      → (decide_next_batch c s ≡ some (to review)) ↔ AllSucceeded s plan
  review-iff-AllSucceeded e i = (review→AllSucceeded e i, AllSucceeded→review e i)
