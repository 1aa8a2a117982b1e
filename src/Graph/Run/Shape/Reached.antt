-- ===== src/Graph/Run/Shape/Reached.antt =====
-- The results wherever a run of graph/build.py gets, and what that says of the review.
use agent_orchestration_syst.Common.{
  ℕ, suc, ◌≡◌, refl, String, Bool, none, some, List, [], ◌∷◌, ◌++◌, arith, All, subst, AtSome,
  AtSome-of, AtSome-bind,
}
use agent_orchestration_syst.Common.Dict.{keys}
use agent_orchestration_syst.Schemas.{ExecutionPlan}
use agent_orchestration_syst.Graph.State.{
  Node, intake, plan_task, route_batch, run_specialist, review, apply_review_feedback, notify_human,
  synthesize, deliver, reject_task, human_escalation, apply_human_decision, OrchestratorState,
  Update, apply_update,
}
use agent_orchestration_syst.Graph.State.Merge.{Writes}
use agent_orchestration_syst.Graph.World.{GraphConfig, World}
use agent_orchestration_syst.Graph.Nodes.Effects.{Effects}
use agent_orchestration_syst.Graph.Nodes.Specialist
use agent_orchestration_syst.Graph.Nodes.Specialist.{SpecialistState, find_subtask}
use agent_orchestration_syst.Graph.Nodes.Decision.{by_id}
use agent_orchestration_syst.Graph.Routing.{Next, to, send, finish, next_of}
use agent_orchestration_syst.Graph.Routing.Complete.{AllSucceeded}
use agent_orchestration_syst.Graph.Run.{
  Run, node_effects, step_node, run_branches, merge_branches, advance, advance_from, Reach,
  Reach-induction, start,
}
use agent_orchestration_syst.Graph.Run.Shape.{
  HasPlan, Reviewable, Payloads, Shape, apply_update-HasPlan, find_subtask-contains,
}
use agent_orchestration_syst.Graph.Run.Shape.Kept.{
  Follows, Kept, intake-Kept, plan_task-Kept, route_batch-Kept, review-Kept, notify_human-Kept,
  synthesize-Kept, deliver-Kept, reject_task-Kept, apply_review_feedback-Kept,
  human_escalation-Kept, apply_human_decision-Kept,
}

node-Kept :
    (c : GraphConfig) (s : OrchestratorState) (w : World) (n : Node)
    → Shape (to n) s
    → Kept c s n (node_effects c w n s)
node-Kept c s w intake h = intake-Kept c s w h
node-Kept c s w plan_task h = plan_task-Kept c s w h
node-Kept c s w route_batch h = route_batch-Kept c s w h
node-Kept c s w run_specialist h = unfold node_effects in tt
node-Kept c s w review h = review-Kept c s w h.has_plan
node-Kept c s w apply_review_feedback h = apply_review_feedback-Kept c s w h
node-Kept c s w notify_human h = notify_human-Kept c s w h
node-Kept c s w synthesize h = synthesize-Kept c s w h
node-Kept c s w deliver h = deliver-Kept c s w h
node-Kept c s w reject_task h = reject_task-Kept c s w h
node-Kept c s w human_escalation h = human_escalation-Kept c s w h
node-Kept c s w apply_human_decision h = apply_human_decision-Kept c s w h

abbrev HasShape : Run → Type 0
HasShape r = Shape r.at r.state

step_node-Shape :
    (c : GraphConfig) (w : World) (n : Node) (r : Run)
    → Shape (to n) r.state
    → AtSome HasShape (step_node c w n r)
unfolding step_node
step_node-Shape c w n r h = AtSome-bind HasShape (node_effects c w n r.state) _ λ (e : Effects) f.
    AtSome-bind HasShape (next_of c n (apply_update r.state e.update)) _ λ next g.
      AtSome-of (λ next. Shape next (apply_update r.state e.update)) _
        (AtSome-of (λ (e : Effects). Follows c n (apply_update r.state e.update)) _
          (node-Kept c r.state w n h) f)
        g

-- A branch of a batch writes the result of a subtask of the plan.
record Sound (plan : ExecutionPlan) (e : Effects) : Type 0 where
  same_plan : e.update.plan ≡ none
  writes : Writes (keys (by_id plan)) e.update.completed

run_specialist-Sound :
    (c : GraphConfig) (w : World) (p : SpecialistState)
    → AtSome (Sound p.plan) (Specialist.run_specialist c w p)
unfolding Specialist.run_specialist
run_specialist-Sound c w p =
    AtSome-bind (Sound p.plan) (find_subtask p.subtask_id p.plan.subtasks) _ λ subtask f.
      AtSome-bind (Sound p.plan) (w.run subtask.specialist subtask p.completed _) _ λ a _. record {
        same_plan = refl;
        writes = (find_subtask-contains p.subtask_id [] p.plan.subtasks f, tt);
      }

run_branches-Sound :
    (c : GraphConfig) (w : ℕ → World) (plan : ExecutionPlan) (i : ℕ) (ps : List SpecialistState)
    → Payloads plan ps
    → AtSome (All (Sound plan)) (run_branches c w i ps)
unfolding run_branches
run_branches-Sound c w plan i [] h = tt
run_branches-Sound c w plan i (p ∷ ps) h =
    AtSome-bind (All (Sound plan)) (Specialist.run_specialist c (w i) p) _ λ e f.
      AtSome-bind (All (Sound plan)) (run_branches c w (suc i) ps) _ λ es g. (
        subst (λ plan. Sound plan e) h.0
            (AtSome-of (Sound p.plan) _ (run_specialist-Sound c (w i) p) f),
        AtSome-of (All (Sound plan)) _ (run_branches-Sound c w plan (suc i) ps h.1) g,
      )

apply_update-plan :
    (s : OrchestratorState) (u : Update) {plan : ExecutionPlan}
    → s.plan ≡ some plan
    → u.plan ≡ none
    → (apply_update s u).plan ≡ some plan
unfolding apply_update
apply_update-plan s u e f = ground arith

Sound-HasPlan :
    (s : OrchestratorState) (plan : ExecutionPlan) (e : Effects) (h : HasPlan s)
    → s.plan ≡ some plan
    → Sound plan e
    → HasPlan (apply_update s e.update)
Sound-HasPlan s plan e h given sound =
    let same : plan ≡ h.plan = cc (h.given) in
    apply_update-HasPlan s e.update h sound.same_plan
      (subst (λ plan. Writes (keys (by_id plan)) e.update.completed) same sound.writes)

merge_branches-HasPlan :
    (plan : ExecutionPlan) (es : List Effects) (r : Run)
    → HasPlan r.state
    → r.state.plan ≡ some plan
    → All (Sound plan) es
    → HasPlan (merge_branches r es).state
unfolding merge_branches
merge_branches-HasPlan plan [] r h given a = h
merge_branches-HasPlan plan (e ∷ es) r h given a =
    merge_branches-HasPlan plan es
      (record r { state = apply_update r.state e.update; calls = r.calls ++ e.calls })
      (Sound-HasPlan r.state plan e h given a.0)
      (apply_update-plan r.state e.update given a.0.same_plan) a.1

advance_from-Shape :
    (c : GraphConfig) (w : ℕ → World) (at : Next) (r : Run)
    → Shape at r.state
    → AtSome HasShape (advance_from c w at r)
unfolding advance_from
advance_from-Shape c w (to n) r h = step_node-Shape c (w 0) n r h
advance_from-Shape c w (send ps) r h = AtSome-bind HasShape (run_branches c w 0 ps) _ λ es f.
    merge_branches-HasPlan h.has_plan.plan es r h.has_plan h.has_plan.given (
      AtSome-of (All (Sound h.has_plan.plan)) _
        (run_branches-Sound c w h.has_plan.plan 0 ps h.payloads) f)
advance_from-Shape c w finish r h = tt

pub Reach-Shape :
    (c : GraphConfig) (task user_id task_id : String) (require_human_approval : Bool) {r : Run}
    → Reach c (start task user_id task_id require_human_approval) r
    → Shape r.at r.state
unfolding advance start
Reach-Shape c task user_id task_id require_human_approval reach =
    Reach-induction HasShape (record { no_results = refl })
      (λ r r' w h e. AtSome-of HasShape _ (advance_from-Shape c w r.at r h) e) reach

-- Whatever the agents and the human answer, a run gets to the review only when every subtask of
-- its plan has a successful result.
pub review-AllSucceeded :
    (c : GraphConfig) (task user_id task_id : String) (require_human_approval : Bool) (r : Run)
    → Reach c (start task user_id task_id require_human_approval) r
    → r.at ≡ to review
    → (plan : ExecutionPlan) × (r.state.plan ≡ some plan) × AllSucceeded r.state plan
review-AllSucceeded c task user_id task_id require_human_approval r reach at =
    let reviewable : Reviewable r.state =
      subst (λ next. Shape next r.state) at
        (Reach-Shape c task user_id task_id require_human_approval reach) in
    (reviewable.has_plan.plan, reviewable.has_plan.given, reviewable.all_succeeded)
