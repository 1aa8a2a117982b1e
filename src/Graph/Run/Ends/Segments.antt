-- ===== src/Graph/Run/Ends/Segments.antt =====
-- The batches of graph/build.py between two reviews come to an end, and so does what follows a
-- review that leads out of the loop.
use agent_orchestration_syst.Common.{
  ℕ, zero, suc, ◌≤◌, ◌<◌, ◌≡◌, refl, String, Bool, true, false, Option, none, some, List, [], ◌∷◌,
  ◌++◌, if◌then◌else◌, arith, Option-cases, inl, inr, map, AtSome, AtSome-bind, AtSome-of, ◌∙◌,
  subst,
}
use agent_orchestration_syst.Schemas.{ExecutionPlan}
use agent_orchestration_syst.Graph.State.{
  Node, route_batch, review, notify_human, synthesize, deliver, reject_task, human_escalation,
  OrchestratorState, apply_update, no_update, merge_optional_dict,
}
use agent_orchestration_syst.Graph.World.{GraphConfig, MemoryCall, World}
use agent_orchestration_syst.Graph.Nodes.Effects.{Effects}
use agent_orchestration_syst.Graph.Nodes.Decision.{by_id}
use agent_orchestration_syst.Graph.Routing.{
  Next, to, send, finish, next_of, decide_next_batch, route_batch_of, payload, ready_ids, stuck_ids,
  incomplete,
}
use agent_orchestration_syst.Graph.Run.{
  Run, advance, merge_branches, node_effects, run_branches, step_node,
}
use agent_orchestration_syst.Graph.Run.Ends.{at_rest, ended, interrupted, raised, run_on, Stopped}
use agent_orchestration_syst.Graph.Run.Ends.Work.{batch_falls, work_of, work_of-same}
use agent_orchestration_syst.Graph.Run.Ends.Batches.{batch-Merged}

module _ (c : GraphConfig) where
  -- Whatever the answers, enough supersteps come to a stop.
  abbrev pub Ends : Run → Type 0
  Ends r =
      (answers : ℕ → ℕ → World) (i : ℕ)
      → (fuel : ℕ) × (stop : Stopped) × (run_on c answers fuel i r ≡ some stop)

  abbrev pub EndsAt : OrchestratorState → Next → Type 0
  EndsAt s next = (calls : List MemoryCall) → Ends (record { at = next; state = s; calls = calls })

  Ends-advance : (r : Run) → ((w : ℕ → World) → AtSome Ends (advance c w r)) → Ends r
  unfolding run_on
  Ends-advance r h answers i = elim (Option-cases (at_rest r.at r)) [
    | inr (stop, e) ↦ (1, stop, rw (e, run_on))
    | inl e ↦ elim (Option-cases (advance c (answers i) r)) [
      | inl d ↦ (1, raised, rw (e, d, run_on))
      | inr (r', d) ↦
          let (fuel, stop, k) =
            AtSome-of Ends (advance c (answers i) r) (h (answers i)) d answers (suc i) in
          (suc fuel, stop, rw (e, d, run_on) k)
    ]
  ]

  -- A run ends at a node if it does wherever the node's edges lead.
  pub EndsAt-node :
      (n : Node) (s : OrchestratorState)
      → ((w : World)
          → AtSome
              (λ (e : Effects).
                AtSome (EndsAt (apply_update s e.update)) (next_of c n (apply_update s e.update)))
              (node_effects c w n s))
      → EndsAt s (to n)
  unfolding advance step_node
  EndsAt-node n s h calls = Ends-advance _ λ w.
      AtSome-bind Ends (node_effects c (w 0) n s) _ λ (e : Effects) f.
        AtSome-bind Ends (next_of c n (apply_update s e.update)) _ λ next g.
          AtSome-of (EndsAt (apply_update s e.update)) _
            (AtSome-of
              (λ (e : Effects).
                AtSome (EndsAt (apply_update s e.update)) (next_of c n (apply_update s e.update)))
              _ (h (w 0)) f)
            g (calls ++ e.calls)

  pub AtSome-all {ℓ κ} : {A : Type ℓ} (P : A → Type κ) (o : Option A) → ((a : A) → P a) → AtSome P o
  AtSome-all P none h = tt
  AtSome-all P (some a) h = h a

  pub EndsAt-if :
      (s : OrchestratorState) (b : Bool) (x y : Next)
      → EndsAt s x
      → EndsAt s y
      → EndsAt s (if b then x else y)
  EndsAt-if s true x y h k = h
  EndsAt-if s false x y h k = k

  pub finish-EndsAt : (s : OrchestratorState) → EndsAt s finish
  unfolding run_on
  finish-EndsAt s calls answers i = (1, ended _, refl)

  pub human-EndsAt : (s : OrchestratorState) → EndsAt s (to human_escalation)
  unfolding run_on
  human-EndsAt s calls answers i = (1, interrupted _, refl)

  pub deliver-EndsAt : (s : OrchestratorState) → EndsAt s (to deliver)
  unfolding next_of
  deliver-EndsAt s =
      EndsAt-node deliver s
        λ w. AtSome-all _ (node_effects c w deliver s) λ e. finish-EndsAt (apply_update s e.update)

  pub reject-EndsAt : (s : OrchestratorState) → EndsAt s (to reject_task)
  unfolding next_of
  reject-EndsAt s = EndsAt-node reject_task s λ w.
      AtSome-all _ (node_effects c w reject_task s) λ e. finish-EndsAt (apply_update s e.update)

  pub synthesize-EndsAt : (s : OrchestratorState) → EndsAt s (to synthesize)
  unfolding next_of
  synthesize-EndsAt s = EndsAt-node synthesize s λ w.
      AtSome-all _ (node_effects c w synthesize s) λ e. deliver-EndsAt (apply_update s e.update)

  pub notify-EndsAt : (s : OrchestratorState) → EndsAt s (to notify_human)
  unfolding next_of
  notify-EndsAt s = EndsAt-node notify_human s λ w.
      AtSome-all _ (node_effects c w notify_human s)
        λ e. synthesize-EndsAt (apply_update s e.update)

  -- No more than so many attempts are left.
  abbrev IsWorkWithin : ℕ → OrchestratorState → Type 0
  IsWorkWithin m s =
      (plan : ExecutionPlan)
      → s.plan ≡ some plan
      → work_of c.settings.max_specialist_retries s (by_id plan) ≤ m

  IsWorkWithin-of :
      (m : ℕ) (s : OrchestratorState) (plan : ExecutionPlan)
      → s.plan ≡ some plan
      → work_of c.settings.max_specialist_retries s (by_id plan) ≤ m
      → IsWorkWithin m s
  IsWorkWithin-of m s plan e h p q =
      let same : plan ≡ p = ground (arith, q, e) in
      subst (λ (x : ExecutionPlan). work_of c.settings.max_specialist_retries s (by_id x) ≤ m) same
        h

  -- Given that a review of some cycle ends, so do the batches before it.
  module _ (k : ℕ)
      (reviewed : (s : OrchestratorState) → s.review_cycles ≡ k → EndsAt s (to review)) where
    abbrev Sends : OrchestratorState → ExecutionPlan → Type 0
    Sends s plan =
        (id : String) (ids : List String)
        → ready_ids c s plan ≡ id ∷ ids
        → EndsAt s (send (map (payload s plan) (id ∷ ids)))

    send-EndsAt :
        (s : OrchestratorState) (plan : ExecutionPlan)
        → s.plan ≡ some plan
        → s.review_cycles ≡ k
        → ((s' : OrchestratorState)
            → s'.review_cycles ≡ k
            → s'.plan ≡ some plan
            → work_of c.settings.max_specialist_retries s' (by_id plan)
              < work_of c.settings.max_specialist_retries s (by_id plan)
            → EndsAt s' (to route_batch))
        → Sends s plan
    unfolding advance
    send-EndsAt s plan e f later id ids ready calls = Ends-advance _ λ w.
        let r : Run = record {
          at = send (map (payload s plan) (id ∷ ids));
          state = s;
          calls = calls;
        } in
        AtSome-bind Ends (run_branches c w 0 (map (payload s plan) (id ∷ ids))) _ λ es g.
          let (merged, kept) = AtSome-of _ _ (batch-Merged c w plan (id ∷ ids) r) g in
          let s' = (merge_branches r es).state in
          later s' (kept.same_cycles ∙ f) (kept.same_plan ∙ e)
            (batch_falls c s s' plan id ids ready (rw ready merged)) (merge_branches r es).calls

    route_batch_of-EndsAt :
        (s : OrchestratorState) (plan : ExecutionPlan) (stuck ready : List String)
        → s.review_cycles ≡ k
        → ready_ids c s plan ≡ ready
        → Sends s plan
        → EndsAt s (route_batch_of s plan stuck ready)
    unfolding route_batch_of
    route_batch_of-EndsAt s plan (x ∷ xs) ready f g sent = human-EndsAt s
    route_batch_of-EndsAt s plan [] (id ∷ ids) f g sent = sent id ids g
    route_batch_of-EndsAt s plan [] [] f g sent =
        EndsAt-if s (incomplete s plan) (to human_escalation) (to review) (human-EndsAt s)
          (reviewed s f)

    abbrev BatchesEnd : ℕ → Type 0
    BatchesEnd m =
        (s : OrchestratorState) → s.review_cycles ≡ k → IsWorkWithin m s → EndsAt s (to route_batch)

    route_batch-EndsAt :
        (m : ℕ) (s : OrchestratorState)
        → s.review_cycles ≡ k
        → IsWorkWithin m s
        → ((s1 : OrchestratorState) (plan : ExecutionPlan)
            → s1.review_cycles ≡ k
            → s1.plan ≡ some plan
            → work_of c.settings.max_specialist_retries s1 (by_id plan) ≤ m
            → Sends s1 plan)
        → EndsAt s (to route_batch)
    unfolding node_effects next_of decide_next_batch apply_update merge_optional_dict
    route_batch-EndsAt m s f h sent = EndsAt-node route_batch s λ w.
        let s1 = apply_update s no_update in
        AtSome-bind (EndsAt s1) s.plan _ λ plan e.
          route_batch_of-EndsAt s1 plan (stuck_ids c s1 plan) (ready_ids c s1 plan) f refl (
            sent s1 plan f e (
              omega (
                arith,
                work_of-same c.settings.max_specialist_retries s s1 (by_id plan) refl refl,
                h plan e,
              )))

    batches-EndsAt : (m : ℕ) → BatchesEnd m
    batches-EndsAt zero s f h = route_batch-EndsAt zero s f h λ s1 plan g e none_left.
        send-EndsAt s1 plan e g λ s' _ _ fell. absurd (omega (arith, fell, none_left))
    batches-EndsAt (suc m) s f h = route_batch-EndsAt (suc m) s f h λ s1 plan g e some_left.
        send-EndsAt s1 plan e g λ s' f' e' fell.
          batches-EndsAt m s' f' (IsWorkWithin-of m s' plan e' (omega (arith, fell, some_left)))

    pub batch-EndsAt : (s : OrchestratorState) → s.review_cycles ≡ k → EndsAt s (to route_batch)
    batch-EndsAt s f = elim (Option-cases s.plan) [
      | inl e ↦ batches-EndsAt 0 s f (λ p q. absurd (ground (arith, e, q)))
      | inr (plan, e) ↦
          batches-EndsAt (work_of c.settings.max_specialist_retries s (by_id plan)) s f
            (IsWorkWithin-of _ s plan e (omega arith))
    ]
