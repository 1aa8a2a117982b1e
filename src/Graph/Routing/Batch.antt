-- ===== src/Graph/Routing/Batch.antt =====
-- What `decide_next_batch` of graph/build.py chooses, against a description of the subtasks.
use agent_orchestration_syst.Common.{
  ◌≡◌, refl, ◌<◌, ◌↔◌, String, Bool, true, false, Option, none, some, List, [], ◌∷◌, arith, eq_iff,
  inl, inr, all, All, get_or, Option-cases, ◌∙◌,
}
use agent_orchestration_syst.Common.Dict.{Dict, contains, Distinct, keys, lookup, assign}
use agent_orchestration_syst.Common.Dict.Keys.{contains-keys, assign-Distinct}
use agent_orchestration_syst.Schemas.{ExecutionPlan, SubTask, SubtaskResult}
use agent_orchestration_syst.Graph.State.{OrchestratorState}
use agent_orchestration_syst.Graph.World.{GraphConfig}
use agent_orchestration_syst.Graph.Nodes.Decision.{by_id, index_from}
use agent_orchestration_syst.Graph.Routing.{
  succeeded, deps_done, readiness, is_ready, is_stuck, select, stuck_ids, ready_ids, Readiness,
}

pub index_from-Distinct :
    (d : Dict SubTask) (ts : List SubTask) → Distinct (keys d) → Distinct (keys (index_from d ts))
unfolding index_from
index_from-Distinct d [] h = h
index_from-Distinct d (t ∷ ts) h =
    index_from-Distinct (assign t.id t d) ts (assign-Distinct t.id t d h)

pub by_id-Distinct : (plan : ExecutionPlan) → Distinct (keys (by_id plan))
by_id-Distinct plan = index_from-Distinct [] plan.subtasks tt

abbrev pub passes : (String → SubTask → Bool) → String → Option SubTask → Bool
passes p id none = false
passes p id (some t) = p id t

pub contains-select :
    (p : String → SubTask → Bool) (id : String) (d : Dict SubTask)
    → Distinct (keys d)
    → contains id (select p d) ≡ passes p id (lookup id d)
unfolding select lookup
contains-select p id [] h = refl
contains-select p id ((j, t) ∷ d) h =
    ground (arith, contains-select p id d h.1, eq_iff j id, contains-keys j d)

-- A subtask of the plan that may run now: it has not succeeded, it has attempts left if it
-- failed, and everything that it depends on has succeeded.
pub record IsRunnable (c : GraphConfig) (s : OrchestratorState) (plan : ExecutionPlan) (id : String)
    : Type 0 where
  pub subtask : SubTask
  pub planned : lookup id (by_id plan) ≡ some subtask
  pub not_done : succeeded (lookup id s.completed) ≡ false
  pub attempts_left :
      (r : SubtaskResult)
      → lookup id s.completed ≡ some r
      → get_or (lookup id s.retry_counts) 0 < c.settings.max_specialist_retries
  pub deps_succeeded :
      All
        (λ dep. (r : SubtaskResult) × (lookup dep s.completed ≡ some r) × (r.success ≡ true))
        subtask.depends_on

abbrev DepsSucceeded : Dict SubtaskResult → List String → Type 0
DepsSucceeded completed =
    All (λ dep. (r : SubtaskResult) × (lookup dep completed ≡ some r) × (r.success ≡ true))

deps_done→DepsSucceeded :
    (completed : Dict SubtaskResult) (deps : List String)
    → all (λ dep. succeeded (lookup dep completed)) deps ≡ true
    → DepsSucceeded completed deps
deps_done→DepsSucceeded completed [] h = tt
deps_done→DepsSucceeded completed (dep ∷ deps) h = elim (Option-cases (lookup dep completed)) [
  | inl e ↦ absurd (ground arith)
  | inr (r, e) ↦ ((r, e, ground arith), deps_done→DepsSucceeded completed deps (ground arith))
]

DepsSucceeded→deps_done :
    (completed : Dict SubtaskResult) (deps : List String)
    → DepsSucceeded completed deps
    → all (λ dep. succeeded (lookup dep completed)) deps ≡ true
DepsSucceeded→deps_done completed [] h = refl
DepsSucceeded→deps_done completed (dep ∷ deps) h =
    let (r, e, ok) = h.0 in ground (arith, DepsSucceeded→deps_done completed deps h.1)

module _ (c : GraphConfig) (s : OrchestratorState) (plan : ExecutionPlan) (id : String) where
  abbrev pub readiness_of : SubTask → Readiness
  readiness_of t = readiness c.settings.max_specialist_retries s.completed s.retry_counts id t

  pub contains-ready_ids :
      contains id (ready_ids c s plan)
      ≡ passes (λ _ t. is_ready (readiness_of t)) id (lookup id (by_id plan))
  unfolding ready_ids
  contains-ready_ids =
      contains-select _ id (by_id plan) (by_id-Distinct plan) ∙ same (lookup id (by_id plan))
    where
      same :
          (o : Option SubTask)
          → passes
              (λ i t.
                is_ready
                  (readiness c.settings.max_specialist_retries s.completed s.retry_counts i t))
              id
              o
            ≡ passes (λ _ t. is_ready (readiness_of t)) id o
      same none = refl
      same (some t) = refl

  pub contains-stuck_ids :
      contains id (stuck_ids c s plan)
      ≡ passes (λ _ t. is_stuck (readiness_of t)) id (lookup id (by_id plan))
  unfolding stuck_ids
  contains-stuck_ids =
      contains-select _ id (by_id plan) (by_id-Distinct plan) ∙ same (lookup id (by_id plan))
    where
      same :
          (o : Option SubTask)
          → passes
              (λ i t.
                is_stuck
                  (readiness c.settings.max_specialist_retries s.completed s.retry_counts i t))
              id
              o
            ≡ passes (λ _ t. is_stuck (readiness_of t)) id o
      same none = refl
      same (some t) = refl

  IsRunnable-of :
      (t : SubTask)
      → lookup id (by_id plan) ≡ some t
      → is_ready (readiness_of t) ≡ true
      → IsRunnable c s plan id
  unfolding readiness deps_done
  IsRunnable-of t e h = record {
    subtask = t;
    planned = e;
    not_done = ground arith;
    attempts_left = λ r k. ground arith;
    deps_succeeded = deps_done→DepsSucceeded s.completed t.depends_on (ground arith);
  }

  ready_of_runnable : (h : IsRunnable c s plan id) → is_ready (readiness_of h.subtask) ≡ true
  unfolding readiness deps_done
  ready_of_runnable h = elim (Option-cases (lookup id s.completed)) [
    | inl e ↦
        ground (arith, DepsSucceeded→deps_done s.completed h.subtask.depends_on h.deps_succeeded)
    | inr (r, e) ↦ ground (
      arith,
      h.attempts_left r e,
      h.not_done,
      DepsSucceeded→deps_done s.completed h.subtask.depends_on h.deps_succeeded,
    )
  ]

  -- The subtasks that `decide_next_batch` finds ready are exactly the runnable ones.
  pub ready_ids-iff-IsRunnable : (contains id (ready_ids c s plan) ≡ true) ↔ IsRunnable c s plan id
  ready_ids-iff-IsRunnable = (
    λ h. elim (Option-cases (lookup id (by_id plan))) [
      | inl e ↦ absurd (ground (arith, contains-ready_ids))
      | inr (t, e) ↦ IsRunnable-of t e (ground (arith, contains-ready_ids))
    ],
    λ h. ground (arith, contains-ready_ids, h.planned, ready_of_runnable h),
  )
