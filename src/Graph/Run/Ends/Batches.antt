-- ===== src/Graph/Run/Ends/Batches.antt =====
-- What a batch writes: the result and the retry count of each subtask that was sent out.
use agent_orchestration_syst.Common.{
  ℕ, suc, ◌≡◌, refl, String, String-cases, Bool, false, ◌||◌, none, some, List, [], ◌∷◌, ◌++◌, ◌==◌,
  if◌then◌else◌, arith, inl, inr, map, AtSome, AtSome-bind, AtSome-of, AtSome-map, ap, ◌∙◌,
}
use agent_orchestration_syst.Common.Dict.{contains, lookup, lookup-assign}
use agent_orchestration_syst.Schemas.{ExecutionPlan, SubtaskResult}
use agent_orchestration_syst.Graph.State.{apply_update, merge_optional_dict, OrchestratorState}
use agent_orchestration_syst.Graph.World.{GraphConfig, World}
use agent_orchestration_syst.Graph.Nodes.Effects.{Effects}
use agent_orchestration_syst.Graph.Nodes.Specialist
use agent_orchestration_syst.Graph.Nodes.Specialist.{find_subtask, next_retry_count}
use agent_orchestration_syst.Graph.Routing.{payload}
use agent_orchestration_syst.Graph.Run.{merge_branches, Run, run_branches}
use agent_orchestration_syst.Graph.Run.Ends.Work.{Merged}

-- The writes of one branch.
record IsBranch (s : OrchestratorState) (id : String) (e : Effects) : Type 0 where
  result : SubtaskResult
  stores : e.update.completed ≡ (id, some result) ∷ []
  counts :
      e.update.retry_counts ≡ (id, some (next_retry_count s.retry_counts id result.success)) ∷ []
  same_plan : e.update.plan ≡ none
  same_cycles : e.update.review_cycles ≡ none

run_specialist-IsBranch :
    (c : GraphConfig) (w : World) (s : OrchestratorState) (plan : ExecutionPlan) (id : String)
    → AtSome (IsBranch s id) (Specialist.run_specialist c w (payload s plan id))
unfolding Specialist.run_specialist payload
run_specialist-IsBranch c w s plan id =
    AtSome-bind (IsBranch s id) (find_subtask id plan.subtasks) _ λ subtask f.
      AtSome-bind (IsBranch s id) (w.run subtask.specialist subtask s.completed _) _ λ a _. record {
        result = a.0;
        stores = refl;
        counts = refl;
        same_plan = refl;
        same_cycles = refl;
      }

module _ (s s' : OrchestratorState) (id : String) (e : Effects) (b : IsBranch s id e) where
  branch_result :
      (x : String)
      → lookup x (apply_update s' e.update).completed
        ≡ (if id == x then some b.result else lookup x s'.completed)
  unfolding apply_update merge_optional_dict
  branch_result x =
      ap (λ d. lookup x (merge_optional_dict s'.completed d)) b.stores
      ∙ lookup-assign id x b.result s'.completed

  branch_count :
      (x : String)
      → lookup x (apply_update s' e.update).retry_counts ≡ (
          if id == x
          then some (next_retry_count s.retry_counts id b.result.success)
          else lookup x s'.retry_counts)
  unfolding apply_update merge_optional_dict
  branch_count x =
      ap (λ d. lookup x (merge_optional_dict s'.retry_counts d)) b.counts
      ∙ lookup-assign id x (next_retry_count s.retry_counts id b.result.success) s'.retry_counts

  apply_update-Merged :
      (ran : String → Bool)
      → Merged s ran s'
      → Merged s (λ x. id == x || ran x) (apply_update s' e.update)
  apply_update-Merged ran m x = elim (String-cases id x) [
    | inl (p, t) ↦ (
      λ _. record {
        result = b.result;
        stored = ground (arith, branch_result x, t);
        counted = ground (
          arith,
          branch_count x,
          t,
          ap (λ y. next_retry_count s.retry_counts y b.result.success) p,
        );
      },
      λ h. absurd (ground (arith, h, t)),
    )
    | inr (p, t) ↦ (
      λ h.
          let before = (m x).0 (ground (arith, h, t)) in
          record {
            result = before.result;
            stored = ground (arith, branch_result x, t, before.stored);
            counted = ground (arith, branch_count x, t, before.counted);
          },
      λ h.
          let before = (m x).1 (ground (arith, h, t)) in
          record {
            same_result = ground (arith, branch_result x, t, before.same_result);
            same_count = ground (arith, branch_count x, t, before.same_count);
          },
    )
  ]

-- A state that keeps the plan and the number of reviews.
pub record Keeps (s s' : OrchestratorState) : Type 0 where
  pub same_plan : s'.plan ≡ s.plan
  pub same_cycles : s'.review_cycles ≡ s.review_cycles

apply_update-Keeps :
    (s s' : OrchestratorState) (id : String) (e : Effects)
    → IsBranch s id e
    → Keeps s s'
    → Keeps s (apply_update s' e.update)
unfolding apply_update
apply_update-Keeps s s' id e b k = record {
  same_plan = ground (arith, b.same_plan, k.same_plan);
  same_cycles = ground (arith, b.same_cycles, k.same_cycles);
}

-- The state after the branches of a batch.
abbrev Result : OrchestratorState → (String → Bool) → Run → List Effects → Type 0
Result s ran r es = Merged s ran (merge_branches r es).state × Keeps s (merge_branches r es).state

run_branches-Result :
    (c : GraphConfig) (w : ℕ → World) (i : ℕ) (s : OrchestratorState) (plan : ExecutionPlan)
    (ids : List String) (ran : String → Bool) (r : Run)
    → Merged s ran r.state
    → Keeps s r.state
    → AtSome
        (Result s (λ x. contains x ids || ran x) r)
        (run_branches c w i (map (payload s plan) ids))
unfolding run_branches merge_branches
run_branches-Result c w i s plan [] ran r m k = (m, k)
run_branches-Result c w i s plan (id ∷ ids) ran r m k =
    let after = Result s (λ x. contains x (id ∷ ids) || ran x) r in
    AtSome-bind after (Specialist.run_specialist c (w i) (payload s plan id)) _ λ e f.
      AtSome-bind after (run_branches c w (suc i) (map (payload s plan) ids)) _ λ es g.
        let b = AtSome-of (IsBranch s id) _ (run_specialist-IsBranch c (w i) s plan id) f in
        let r' : Run = record r {
          state = apply_update r.state e.update;
          calls = r.calls ++ e.calls;
        } in
        let rest =
          AtSome-of (Result s (λ x. contains x ids || (id == x || ran x)) r') _
            (run_branches-Result c w (suc i) s plan ids (λ x. id == x || ran x) r'
              (apply_update-Merged s r.state id e b ran m) (apply_update-Keeps s r.state id e b k))
            g in
        (
          λ x. (λ h. (rest.0 x).0 (ground (arith, h)), λ h. (rest.0 x).1 (ground (arith, h))),
          rest.1,
        )

-- After a batch the subtasks that were sent have run, on the state that they were sent, and
-- nothing else has changed in the results and the retry counts.
pub batch-Merged :
    (c : GraphConfig) (w : ℕ → World) (plan : ExecutionPlan) (ids : List String) (r : Run)
    → AtSome
        (λ es.
          Merged r.state (λ x. contains x ids) (merge_branches r es).state
          × Keeps r.state (merge_branches r es).state)
        (run_branches c w 0 (map (payload r.state plan) ids))
batch-Merged c w plan ids r =
    AtSome-map (Result r.state (λ x. contains x ids || false) r) _ _
      (λ es h. (λ x. (λ k. (h.0 x).0 (ground (arith, k)), λ k. (h.0 x).1 (ground (arith, k))), h.1))
      (run_branches-Result c w 0 r.state plan ids (λ _. false) r
        (λ x.
          (λ h. absurd (ground (arith, h)), λ _. record { same_result = refl; same_count = refl }))
        (record { same_plan = refl; same_cycles = refl }))
