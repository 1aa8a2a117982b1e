-- ===== src/Graph/Run.antt =====
-- A run of the compiled graph: a node's update is merged into the state and the edges give what
-- runs next. The branches of a batch run on the states that were sent, and their updates are
-- merged in the order of the sends. Nothing is written where a node raises.
pub mod Shape
pub mod Approval
pub mod Endings
pub mod Outcome
pub mod Samples
pub mod Stalls
pub mod LateStuck
pub mod Events
pub mod Ends
use agent_orchestration_syst.Common.{
  ℕ, suc, ◌+◌, ◌≡◌, String, Bool, Option, none, some, List, [], ◌∷◌, ◌++◌, ◌>>=◌,
}
use agent_orchestration_syst.Graph.State.{
  Node, intake, plan_task, route_batch, run_specialist, review, apply_review_feedback, notify_human,
  synthesize, deliver, reject_task, human_escalation, apply_human_decision, OrchestratorState,
  apply_update, no_update,
}
use agent_orchestration_syst.Graph.World.{GraphConfig, MemoryCall, World}
use agent_orchestration_syst.Graph.Nodes.Effects.{Effects}
use agent_orchestration_syst.Graph.Nodes.Planning
use agent_orchestration_syst.Graph.Nodes.Specialist
use agent_orchestration_syst.Graph.Nodes.Specialist.{SpecialistState}
use agent_orchestration_syst.Graph.Nodes.Review
use agent_orchestration_syst.Graph.Nodes.Escalation
use agent_orchestration_syst.Graph.Nodes.Decision
use agent_orchestration_syst.Graph.Routing.{Next, to, send, finish, next_of}

-- `add_node`: `run_specialist` runs on a sent state alone, since it reads `subtask_id`.
unfoldable pub node_effects : GraphConfig → World → Node → OrchestratorState → Option Effects
node_effects c w intake s = Planning.intake c w s
node_effects c w plan_task s = Planning.plan_task c w s
node_effects c w route_batch s = some (record { update = no_update; calls = [] })
node_effects c w run_specialist s = none
node_effects c w review s = Review.review c w s
node_effects c w apply_review_feedback s = Review.apply_review_feedback c w s
node_effects c w notify_human s = Review.notify_human c w s
node_effects c w synthesize s = Planning.synthesize c w s
node_effects c w deliver s = Planning.deliver c w s
node_effects c w reject_task s = Planning.reject_task c w s
node_effects c w human_escalation s = Escalation.human_escalation c w s
node_effects c w apply_human_decision s = Decision.apply_human_decision c w s

pub record Run : Type 0 where
  pub at : Next
  pub state : OrchestratorState
  pub calls : List MemoryCall

-- One node.
unfoldable pub step_node : GraphConfig → World → Node → Run → Option Run
step_node c w n r = node_effects c w n r.state >>= λ (e : Effects).
    let s = apply_update r.state e.update in
    next_of c n s >>= λ (next : Next).
    some (record { at = next; state = s; calls = r.calls ++ e.calls })

-- The branches of a batch, each with its own answers from outside.
unfoldable pub run_branches :
    GraphConfig → (ℕ → World) → ℕ → List SpecialistState → Option (List Effects)
run_branches c w i [] = some []
run_branches c w i (p ∷ ps) = Specialist.run_specialist c (w i) p >>= λ (e : Effects).
    run_branches c w (suc i) ps >>= λ es. some (e ∷ es)

unfoldable pub merge_branches : Run → List Effects → Run
merge_branches r [] = r
merge_branches r (e ∷ es) =
    merge_branches (record r { state = apply_update r.state e.update; calls = r.calls ++ e.calls })
      es

-- One superstep of the graph. `human_escalation` runs when the human's decision is there.
unfoldable pub advance_from : GraphConfig → (ℕ → World) → Next → Run → Option Run
advance_from c w (to n) r = step_node c (w 0) n r
advance_from c w (send ps) r =
    run_branches c w 0 ps >>= λ es. some (record (merge_branches r es) { at = to route_batch })
advance_from c w finish r = none

unfoldable pub advance : GraphConfig → (ℕ → World) → Run → Option Run
unfolding advance_from
advance c w r = advance_from c w r.at r

-- The state that a caller of `invoke` gives.
unfoldable pub start : (task user_id task_id : String) → (require_human_approval : Bool) → Run
start task user_id task_id require_human_approval = record {
  at = to intake;
  state = record {
    task = task;
    user_id = some user_id;
    task_id = some task_id;
    memory_context = "";
    require_human_approval = require_human_approval;
    plan = none;
    completed = [];
    retry_counts = [];
    subtask_feedback = [];
    review = none;
    review_cycles = 0;
    status = none;
    escalation = none;
    escalation_source = none;
    human_decision = none;
    final_output = none;
    errors = [];
    trace_events = [];
  };
  calls = [];
}

-- The runs that some answers from outside lead to.
pub data Reach (c : GraphConfig) (first : Run) : Run → Type 0 where
  here : Reach c first first
  next :
      {r r' : Run} → Reach c first r → (w : ℕ → World) → advance c w r ≡ some r' → Reach c first r'

-- A property that every superstep keeps holds wherever a run gets.
pub Reach-induction :
    {c : GraphConfig} {first : Run} (P : Run → Type 0)
    → P first
    → ((r r' : Run) (w : ℕ → World) → P r → advance c w r ≡ some r' → P r')
    → {r : Run} → Reach c first r
    → P r
Reach-induction P base keeps here = base
Reach-induction P base keeps (next {r} {r'} before w e) =
    keeps r r' w (Reach-induction P base keeps before) e
