-- ===== src/Graph/Run/Ends/Work.antt =====
-- The attempts that are left for the subtasks of a plan, and how they fall when ready ones run.
use agent_orchestration_syst.Common.{
  ℕ, suc, ◌+◌, ◌-◌, ◌≤◌, ◌<◌, ◌≡◌, refl, String, Bool, true, false, Option, none, some, List, [],
  ◌∷◌, if◌then◌else◌, get_or, arith, eq_iff, eq_refl, Bool-cases, inl, inr, All, All-map, any, sym,
  ap, ◌∙◌,
}
use agent_orchestration_syst.Common.Dict.{Dict, contains, lookup, keys, Distinct}
use agent_orchestration_syst.Common.Dict.Keys.{contains-keys}
use agent_orchestration_syst.Graph.World.{GraphConfig}
use agent_orchestration_syst.Graph.Nodes.Decision.{by_id}
use agent_orchestration_syst.Graph.Routing.Batch.{by_id-Distinct, contains-select, passes}
use agent_orchestration_syst.Schemas.{ExecutionPlan, SubTask, SubtaskResult}
use agent_orchestration_syst.Graph.State.{OrchestratorState}
use agent_orchestration_syst.Graph.Nodes.Specialist.{next_retry_count}
use agent_orchestration_syst.Graph.Routing.{is_ready, ready_ids, readiness, select}

-- More for a subtask without a result than for one that failed, none for one that succeeded.
abbrev pub weight : (limit : ℕ) → Option SubtaskResult → (retries : ℕ) → ℕ
weight limit none retries = suc (suc (limit - retries))
weight limit (some r) retries = if r.success then 0 else suc (limit - retries)

abbrev pub left_for : (limit : ℕ) → OrchestratorState → String → ℕ
left_for limit s id = weight limit (lookup id s.completed) (get_or (lookup id s.retry_counts) 0)

unfoldable pub work_of : (limit : ℕ) → OrchestratorState → Dict SubTask → ℕ
work_of limit s [] = 0
work_of limit s ((id, _) ∷ d) = left_for limit s id + work_of limit s d

-- A subtask that ran on the first state, and one that did not.
pub record Ran (s s' : OrchestratorState) (id : String) : Type 0 where
  pub result : SubtaskResult
  pub stored : lookup id s'.completed ≡ some result
  pub counted : lookup id s'.retry_counts ≡ some (next_retry_count s.retry_counts id result.success)

pub record Same (s s' : OrchestratorState) (id : String) : Type 0 where
  pub same_result : lookup id s'.completed ≡ lookup id s.completed
  pub same_count : lookup id s'.retry_counts ≡ lookup id s.retry_counts

-- The subtasks that a test is true of ran, the others did not.
abbrev pub Merged : OrchestratorState → (String → Bool) → OrchestratorState → Type 0
Merged s ran s' = (id : String) → (ran id ≡ true → Ran s s' id) × (ran id ≡ false → Same s s' id)

module _ (limit : ℕ) (s s' : OrchestratorState) where
  ready_falls :
      (id : String) (t : SubTask)
      → is_ready (readiness limit s.completed s.retry_counts id t) ≡ true
      → Ran s s' id
      → left_for limit s' id < left_for limit s id
  unfolding readiness next_retry_count
  ready_falls id t h r = ground (arith, r.stored, r.counted)

  stays : (id : String) → Same s s' id → left_for limit s' id ≡ left_for limit s id
  stays id h = ground (arith, h.same_result, h.same_count)

  work_stays :
      (ran : String → Bool) (d : Dict SubTask)
      → Merged s ran s'
      → All
          (λ (e : String × SubTask).
            ran e.0 ≡ is_ready (readiness limit s.completed s.retry_counts e.0 e.1))
          d
      → (work_of limit s' d ≤ work_of limit s d)
        × (any (λ (e : String × SubTask). ran e.0) d ≡ true
            → work_of limit s' d < work_of limit s d)
  unfolding work_of
  work_stays ran [] m h = (omega arith, λ e. ground arith)
  work_stays ran ((id, t) ∷ d) m h =
      let rest = work_stays ran d m h.1 in
      elim (Bool-cases (ran id)) [
        | inl e ↦
            let falls = ready_falls id t (sym h.0 ∙ e) ((m id).0 e) in
            (omega (arith, falls, rest.0), λ _. omega (arith, falls, rest.0))
        | inr e ↦
            let same = stays id ((m id).1 e) in
            (omega (arith, same, rest.0), λ k. omega (arith, same, rest.1 (ground arith)))
      ]

pub work_of-same :
    (limit : ℕ) (s s' : OrchestratorState) (d : Dict SubTask)
    → s'.completed ≡ s.completed
    → s'.retry_counts ≡ s.retry_counts
    → work_of limit s' d ≡ work_of limit s d
unfolding work_of
work_of-same limit s s' [] p q = refl
work_of-same limit s s' ((id, t) ∷ d) p q = omega (
  arith,
  stays limit s s' id (record { same_result = ap (lookup id) p; same_count = ap (lookup id) q }),
  work_of-same limit s s' d p q,
)

-- In a dictionary each entry is found under its key.
entries_found :
    (d : Dict SubTask)
    → Distinct (keys d)
    → All (λ (e : String × SubTask). lookup e.0 d ≡ some e.1) d
unfolding lookup
entries_found [] h = tt
entries_found ((j, t) ∷ d) h = (
  ground (arith, eq_refl j),
  All-map (λ (e : String × SubTask). lookup e.0 d ≡ some e.1)
      (λ (e : String × SubTask). lookup e.0 ((j, t) ∷ d) ≡ some e.1)
      (λ e k. ground (arith, eq_iff j e.0, contains-keys j d)) d (entries_found d h.1),
)

any-select :
    (p : String → SubTask → Bool) (d : Dict SubTask) (id : String) (ids : List String)
    → select p d ≡ id ∷ ids
    → any (λ (e : String × SubTask). p e.0 e.1) d ≡ true
unfolding select
any-select p [] id ids h = ground arith
any-select p ((j, t) ∷ d) id ids h = elim (Bool-cases (p j t)) [
  | inl e ↦ ground (arith, e)
  | inr e ↦ ground (arith, e, any-select p d id ids)
]

any-All :
    (p q : String × SubTask → Bool) (d : Dict SubTask) → All (λ e. p e ≡ q e) d → any p d ≡ any q d
any-All p q [] h = refl
any-All p q (e ∷ d) h = ground (arith, h.0, any-All p q d h.1)

-- A batch of the ready subtasks leaves fewer attempts, where there is a ready one.
pub batch_falls :
    (c : GraphConfig) (s s' : OrchestratorState) (plan : ExecutionPlan) (id : String)
    (ids : List String)
    → ready_ids c s plan ≡ id ∷ ids
    → Merged s (λ x. contains x (ready_ids c s plan)) s'
    → work_of c.settings.max_specialist_retries s' (by_id plan)
      < work_of c.settings.max_specialist_retries s (by_id plan)
unfolding ready_ids
batch_falls c s s' plan id ids h m =
    let limit = c.settings.max_specialist_retries in
    let d = by_id plan in
    let ready =
      λ (x : String) (t : SubTask). is_ready (readiness limit s.completed s.retry_counts x t) in
    let ran = λ (x : String). contains x (select ready d) in
    let known =
      All-map (λ (e : String × SubTask). lookup e.0 d ≡ some e.1)
        (λ (e : String × SubTask). ran e.0 ≡ ready e.0 e.1)
        (λ e k. contains-select ready e.0 d (by_id-Distinct plan) ∙ ap (passes ready e.0) k) d
        (entries_found d (by_id-Distinct plan)) in
    (work_stays limit s s' ran d m known).1
      (any-All (λ e. ran e.0) (λ e. ready e.0 e.1) d known ∙ any-select ready d id ids h)
