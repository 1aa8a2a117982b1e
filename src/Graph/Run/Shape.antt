-- ===== src/Graph/Run/Shape.antt =====
-- What is known of the results and of the plan wherever a run of graph/build.py stands.
pub mod Kept
pub mod Reached
use agent_orchestration_syst.Common.{
  ◌≡◌, refl, String, Bool, true, false, Option, none, some, List, [], ◌∷◌, arith, ◌==◌, eq_iff,
  if◌then◌else◌, inl, inr, All, subst, Bool-cases, AtSome, AtSome-bind, ◌∙◌, ap, map,
}
use agent_orchestration_syst.Common.Dict.{Dict, contains, keys, assign}
use agent_orchestration_syst.Common.Dict.Keys.{contains-assign}
use agent_orchestration_syst.Schemas.{ExecutionPlan, ReviewResult, SubTask}
use agent_orchestration_syst.Graph.State.{
  EscalationSource, intake, plan_task, route_batch, review, apply_review_feedback, notify_human,
  synthesize, human_escalation, apply_human_decision, OrchestratorState, Update, apply_update,
}
use agent_orchestration_syst.Graph.State.Merge.{merge-Distinct, merge-Within, Writes}
use agent_orchestration_syst.Graph.World.{GraphConfig}
use agent_orchestration_syst.Graph.Nodes.Effects.{Effects}
use agent_orchestration_syst.Graph.Nodes.Frame.{Quiet}
use agent_orchestration_syst.Graph.Nodes.Specialist.{SpecialistState, find_subtask}
use agent_orchestration_syst.Graph.Nodes.Decision.{by_id, index_from, is_plan_source}
use agent_orchestration_syst.Graph.Routing.{
  Next, to, send, finish, route_after_plan, decide_next_batch, route_after_review, route_batch_of,
  incomplete, payload, stuck_ids, ready_ids, needs_human,
}
use agent_orchestration_syst.Graph.Routing.Complete.{
  InPlan, AllSucceeded, review→AllSucceeded, decide_next_batch-of_plan,
}

pub record HasPlan (s : OrchestratorState) : Type 0 where
  pub plan : ExecutionPlan
  pub given : s.plan ≡ some plan
  pub in_plan : InPlan s plan

-- The subtask that a list of a plan's subtasks is searched for has an entry in the plan's index.
index_from-keeps :
    (id : String) (d : Dict SubTask) (ts : List SubTask)
    → contains id (keys d) ≡ true
    → contains id (keys (index_from d ts)) ≡ true
unfolding index_from
index_from-keeps id d [] h = h
index_from-keeps id d (t ∷ ts) h =
    index_from-keeps id (assign t.id t d) ts (ground (arith, contains-assign t.id id t d))

pub find_subtask-contains :
    (id : String) (d : Dict SubTask) (ts : List SubTask) {t : SubTask}
    → find_subtask id ts ≡ some t
    → contains id (keys (index_from d ts)) ≡ true
unfolding find_subtask index_from
find_subtask-contains id d [] h = cc
find_subtask-contains id d (u ∷ ts) {t} h = elim (Bool-cases (u.id == id)) [
  | inl e ↦
      index_from-keeps id (assign u.id u d) ts
        (ground (arith, contains-assign u.id id u d, eq_iff u.id id))
  | inr e ↦ find_subtask-contains id (assign u.id u d) ts {t = t} (ground arith)
]

-- An update that keeps the plan and sets results of the plan's subtasks keeps the shape.
pub apply_update-HasPlan :
    (s : OrchestratorState) (u : Update) (h : HasPlan s)
    → u.plan ≡ none
    → Writes (keys (by_id h.plan)) u.completed
    → HasPlan (apply_update s u)
unfolding apply_update
apply_update-HasPlan s u h same writes = record {
  plan = h.plan;
  given = ground (arith, h.given);
  in_plan = record {
    distinct = merge-Distinct s.completed u.completed h.in_plan.distinct;
    within = merge-Within (keys (by_id h.plan)) s.completed u.completed h.in_plan.within writes;
  };
}

-- Before a plan is made there are no results; at the review every subtask has succeeded; a batch
-- runs on the run's own plan; and a decision on a plan is taken before there are results.
abbrev pub Payloads : ExecutionPlan → List SpecialistState → Type 0
Payloads plan ps = All (λ (p : SpecialistState). p.plan ≡ plan) ps

pub record Unplanned (s : OrchestratorState) : Type 0 where
  pub no_results : s.completed ≡ []

pub record Decided (s : OrchestratorState) : Type 0 where
  pub has_plan : HasPlan s
  pub on_plan :
      (source : EscalationSource)
      → s.escalation_source ≡ some source
      → is_plan_source source ≡ true
      → s.completed ≡ []

pub record Reviewable (s : OrchestratorState) : Type 0 where
  pub has_plan : HasPlan s
  pub all_succeeded : AllSucceeded s has_plan.plan

pub record Dispatched (ps : List SpecialistState) (s : OrchestratorState) : Type 0 where
  pub has_plan : HasPlan s
  pub payloads : Payloads has_plan.plan ps

abbrev pub Shape : Next → OrchestratorState → Type 0
Shape (to intake) s = Unplanned s
Shape (to plan_task) s = Unplanned s
Shape (to apply_human_decision) s = Decided s
Shape (to review) s = Reviewable s
Shape (send ps) s = Dispatched ps s
Shape finish s = Unit
Shape _ s = HasPlan s

map-Payloads :
    (s : OrchestratorState) (plan : ExecutionPlan) (ids : List String)
    → Payloads plan (map (payload s plan) ids)
unfolding payload
map-Payloads s plan [] = tt
map-Payloads s plan (id ∷ ids) = (refl, map-Payloads s plan ids)

pub apply_update-Quiet :
    (s : OrchestratorState) (e : Effects) → HasPlan s → Quiet e → HasPlan (apply_update s e.update)
apply_update-Quiet s e h q = apply_update-HasPlan s e.update h q.same_plan (rw q.same_completed tt)

pub Shape-if :
    (s : OrchestratorState) (b : Bool) (x y : Next)
    → Shape x s
    → Shape y s
    → Shape (if b then x else y) s
Shape-if s true x y h k = h
Shape-if s false x y h k = k

InPlan-of_given :
    (s : OrchestratorState) (plan : ExecutionPlan) (h : HasPlan s)
    → s.plan ≡ some plan
    → InPlan s plan
InPlan-of_given s plan h e =
    let same : h.plan ≡ plan = cc (h.given) in subst (InPlan s) same h.in_plan

-- What the routers lead to, in a state with a plan.
module _ (c : GraphConfig) (s : OrchestratorState) (h : HasPlan s) where
  abbrev pub Leads : Option Next → Type 0
  Leads = AtSome (λ next. Shape next s)

  pub route_after_plan-Leads : Leads (route_after_plan c s)
  unfolding route_after_plan
  route_after_plan-Leads =
      AtSome-bind (λ next. Shape next s) s.plan _
        (λ plan _. Shape-if s (needs_human c s plan) (to human_escalation) (to route_batch) h h)

  pub route_after_review-Leads : Leads (route_after_review c s)
  unfolding route_after_review
  route_after_review-Leads =
      AtSome-bind (λ next. Shape next s) s.review _
        (λ (r : ReviewResult) _. Shape-if s r.requires_human_review _ _ h (
          Shape-if s r.approved _ _ (Shape-if s _ (to notify_human) (to synthesize) h h)
            (Shape-if s _ (to human_escalation) (to apply_review_feedback) h h)))

  batch-Leads :
      (plan : ExecutionPlan) (xs ys : List String)
      → s.plan ≡ some plan
      → (route_batch_of s plan xs ys ≡ to review → AllSucceeded s plan)
      → Shape (route_batch_of s plan xs ys) s
  unfolding route_batch_of
  batch-Leads plan (x ∷ xs) ys e f = h
  batch-Leads plan [] (y ∷ ys) e f = record {
    has_plan = record { plan = plan; given = e; in_plan = InPlan-of_given s plan h e };
    payloads = map-Payloads s plan (y ∷ ys);
  }
  batch-Leads plan [] [] e f = elim (Bool-cases (incomplete s plan)) [
    | inl b ↦ rw b h
    | inr b ↦ rw b (record {
      has_plan = record { plan = plan; given = e; in_plan = InPlan-of_given s plan h e };
      all_succeeded = f (rw b);
    })
  ]

  pub decide_next_batch-Leads : Leads (decide_next_batch c s)
  unfolding decide_next_batch
  decide_next_batch-Leads =
      AtSome-bind (λ next. Shape next s) s.plan _
        (λ plan e. batch-Leads plan (stuck_ids c s plan) (ready_ids c s plan) e (λ f.
          review→AllSucceeded c s plan e (InPlan-of_given s plan h e)
            (decide_next_batch-of_plan c s plan e ∙ ap some f)))
