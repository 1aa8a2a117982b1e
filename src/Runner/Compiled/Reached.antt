-- ===== src/Runner/Compiled/Reached.antt =====
-- run.py and graph/build.py: an invocation stops at a run that the graph reaches, and a resumption
-- keeps the events.
use agent_orchestration_syst.Common.{
  ℕ, zero, suc, ◌≡◌, refl, Option, none, some, List, [], ◌∷◌, ◌++◌, ◌>>=◌, arith, inl, inr,
  Option-cases, AtSome, AtSome-of, AtSome-bind, AtSome-map, ◌∙◌, sym, ap,
}
use agent_orchestration_syst.Schemas.{HumanDecision}
use agent_orchestration_syst.Graph.State.{
  TraceEvent, intake, plan_task, route_batch, run_specialist, review, apply_review_feedback,
  notify_human, synthesize, deliver, reject_task, human_escalation, apply_human_decision,
}
use agent_orchestration_syst.Graph.World.{GraphConfig, World}
use agent_orchestration_syst.Graph.Nodes.Escalation.{interrupt_payload}
use agent_orchestration_syst.Graph.Routing.{Next, to, send, finish}
use agent_orchestration_syst.Graph.Run.{Run, Reach, here, next, advance}
use agent_orchestration_syst.Graph.Run.Ends.{
  interrupted, ended, raised, Stopped, at_rest, invoke, run_on,
}
use agent_orchestration_syst.Graph.Run.Events.{Reach-Extends}
use agent_orchestration_syst.Runner.Compiled.{
  compiled, compiled_app, resume, resume_all, result_of, with_decision,
}
use agent_orchestration_syst.Runner.Traced.{TracedResult}
use agent_orchestration_syst.Runner.Traced.Recorded.{KeepsEvents}

-- Where an invocation stops: at a run that is reached, which has ended where it says so.
abbrev pub StopsAt : GraphConfig → (first : Run) → Stopped → Type 0
StopsAt c first (interrupted r) = Reach c first r
StopsAt c first (ended r) = Reach c first r × (r.at ≡ finish)
StopsAt c first raised = Unit

at_rest-StopsAt :
    (c : GraphConfig) (first r : Run) (n : Next)
    → Reach c first r
    → r.at ≡ n
    → AtSome (StopsAt c first) (at_rest n r)
at_rest-StopsAt c first r (to human_escalation) h e = h
at_rest-StopsAt c first r finish h e = (h, e)
at_rest-StopsAt c first r (send ps) h e = tt
at_rest-StopsAt c first r (to intake) h e = tt
at_rest-StopsAt c first r (to plan_task) h e = tt
at_rest-StopsAt c first r (to route_batch) h e = tt
at_rest-StopsAt c first r (to run_specialist) h e = tt
at_rest-StopsAt c first r (to review) h e = tt
at_rest-StopsAt c first r (to apply_review_feedback) h e = tt
at_rest-StopsAt c first r (to notify_human) h e = tt
at_rest-StopsAt c first r (to synthesize) h e = tt
at_rest-StopsAt c first r (to deliver) h e = tt
at_rest-StopsAt c first r (to reject_task) h e = tt
at_rest-StopsAt c first r (to apply_human_decision) h e = tt

run_on-StopsAt :
    (c : GraphConfig) (first : Run) (answers : ℕ → ℕ → World) (fuel i : ℕ) (r : Run)
    → Reach c first r
    → AtSome (StopsAt c first) (run_on c answers fuel i r)
unfolding run_on
run_on-StopsAt c first answers zero i r h = tt
run_on-StopsAt c first answers (suc fuel) i r h = elim (Option-cases (at_rest r.at r)) [
  | inr (stop, e) ↦
      rw (e, run_on)
        (AtSome-of (StopsAt c first) (at_rest r.at r) (at_rest-StopsAt c first r r.at h refl) e)
  | inl e ↦ elim (Option-cases (advance c (answers i) r)) [
    | inl f ↦ rw (e, f, run_on) tt
    | inr (r', f) ↦
        rw (e, f, run_on) (run_on-StopsAt c first answers fuel (suc i) r' (next h (answers i) f))
  ]
]

invoke-StopsAt :
    (c : GraphConfig) (first : Run) (answers : ℕ → ℕ → World) (fuel : ℕ) (r : Run)
    → Reach c first r
    → AtSome (StopsAt c first) (invoke c answers fuel r)
unfolding invoke
invoke-StopsAt c first answers fuel r h = elim (Option-cases (advance c (answers 0) r)) [
  | inl e ↦ rw (e, invoke) tt
  | inr (r', e) ↦ rw (e, invoke) (run_on-StopsAt c first answers fuel 1 r' (next h (answers 0) e))
]

-- The events that a stopped run has.
abbrev events_at : Stopped → List TraceEvent
events_at (interrupted r) = r.state.trace_events
events_at (ended r) = r.state.trace_events
events_at raised = []

-- The second stop has the events of the first, and then others.
abbrev Grows : Stopped → Stopped → Type 0
Grows stop raised = Unit
Grows stop (interrupted r) =
    (new : List TraceEvent) × (r.state.trace_events ≡ events_at stop ++ new)
Grows stop (ended r) = (new : List TraceEvent) × (r.state.trace_events ≡ events_at stop ++ new)

StopsAt-Grows :
    (c : GraphConfig) (r : Run) (stop : Stopped) → StopsAt c r stop → Grows (interrupted r) stop
StopsAt-Grows c r raised h = tt
StopsAt-Grows c r (interrupted r') h = let e = Reach-Extends c r r' h in (e.new, e.extends)
StopsAt-Grows c r (ended r') h = let e = Reach-Extends c r r' h.0 in (e.new, e.extends)

result_of-events :
    (c : GraphConfig) (stop : Stopped) (result : TracedResult)
    → result_of c stop ≡ some result
    → result.trace_events ≡ events_at stop
unfolding result_of
result_of-events c stop result e =
    AtSome-of (λ r. r.trace_events ≡ events_at stop) (result_of c stop) (cases stop) e
  where
    cases : (stop : Stopped) → AtSome (λ r. r.trace_events ≡ events_at stop) (result_of c stop)
    cases (interrupted r) = AtSome-bind _ (interrupt_payload c r.state) _ (λ p f. refl)
    cases (ended r) = refl
    cases raised = tt

pub bind-inv :
    {A B : Type 0} (o : Option A) (f : A → Option B) {b : B}
    → (o >>= f) ≡ some b
    → (a : A) × (o ≡ some a) × (f a ≡ some b)
bind-inv none f e = absurd (ground (arith, e))
bind-inv (some a) f e = (a, refl, e)

module _ (c : GraphConfig) (answers : ℕ → ℕ → ℕ → World) (fuel : ℕ) where
  resume-StopsAt :
      (first : Run) (k : ℕ) (stop : Stopped) (d : HumanDecision)
      → StopsAt c first stop
      → AtSome (StopsAt c first) (resume c answers fuel k stop d)
  unfolding resume
  resume-StopsAt first k (interrupted r) d h =
      invoke-StopsAt c first (with_decision d (answers k)) fuel r h
  resume-StopsAt first k (ended r) d h = tt
  resume-StopsAt first k raised d h = tt

  resume-Grows :
      (k : ℕ) (stop : Stopped) (d : HumanDecision)
      → AtSome (Grows stop) (resume c answers fuel k stop d)
  unfolding resume
  resume-Grows k (interrupted r) d =
      AtSome-map _ _ (invoke c (with_decision d (answers k)) fuel r) (StopsAt-Grows c r)
        (invoke-StopsAt c r (with_decision d (answers k)) fuel r here)
  resume-Grows k (ended r) d = tt
  resume-Grows k raised d = tt

  resume_all-append :
      (k : ℕ) (stop : Option Stopped) (decisions : List HumanDecision) (d : HumanDecision)
      → (k' : ℕ) × (resume_all c answers fuel k stop (decisions ++ d ∷ [])
          ≡ (resume_all c answers fuel k stop decisions >>= λ s. resume c answers fuel k' s d))
  unfolding resume_all
  resume_all-append k stop [] d = (k, refl)
  resume_all-append k stop (e ∷ decisions) d =
      resume_all-append (suc k) (stop >>= λ s. resume c answers fuel k s e) decisions d

  resume_all-StopsAt :
      (first : Run) (k : ℕ) (stop : Option Stopped) (decisions : List HumanDecision)
      → AtSome (StopsAt c first) stop
      → AtSome (StopsAt c first) (resume_all c answers fuel k stop decisions)
  unfolding resume_all
  resume_all-StopsAt first k stop [] h = h
  resume_all-StopsAt first k stop (d ∷ decisions) h =
      resume_all-StopsAt first (suc k) (stop >>= λ s. resume c answers fuel k s d) decisions (
        AtSome-bind (StopsAt c first) stop _
          (λ s e. resume-StopsAt first k s d (AtSome-of (StopsAt c first) stop h e)))

  pub compiled-StopsAt :
      (first : Run) (decisions : List HumanDecision)
      → AtSome (StopsAt c first) (compiled c answers fuel first decisions)
  unfolding compiled
  compiled-StopsAt first decisions =
      resume_all-StopsAt first 1 (invoke c (answers 0) fuel first) decisions
        (invoke-StopsAt c first (answers 0) fuel first here)

  -- Where both results are there, the stop of the second grew from that of the first.
  Grows-events :
      (stop stop' : Stopped) (result later : TracedResult)
      → Grows stop stop'
      → result_of c stop ≡ some result
      → result_of c stop' ≡ some later
      → (new : List TraceEvent) × (later.trace_events ≡ result.trace_events ++ new)
  unfolding result_of
  Grows-events stop raised result later h e f = absurd (ground (arith, f))
  Grows-events stop (interrupted r) result later (new, g) e f = (
    new,
    result_of-events c (interrupted r) later f
        ∙ g
        ∙ ap (λ es. es ++ new) (sym (result_of-events c stop result e)),
  )
  Grows-events stop (ended r) result later (new, g) e f = (
    new,
    result_of-events c (ended r) later f
        ∙ g
        ∙ ap (λ es. es ++ new) (sym (result_of-events c stop result e)),
  )

  pub compiled_app-KeepsEvents : (first : Run) → KeepsEvents (compiled_app c answers fuel first)
  unfolding compiled_app compiled
  compiled_app-KeepsEvents first decisions d result later e f =
      let (stop, before, given) = bind-inv (compiled c answers fuel first decisions) _ e in
      let (stop', after, given') =
        bind-inv (compiled c answers fuel first (decisions ++ d ∷ [])) _ f in
      let (k, split) = resume_all-append 1 (invoke c (answers 0) fuel first) decisions d in
      Grows-events stop stop' result later
        (AtSome-of (Grows stop) (resume c answers fuel k stop d) (resume-Grows k stop d)
          (ap (λ o. o >>= λ s. resume c answers fuel k s d) (sym before) ∙ sym split ∙ after))
        given given'
