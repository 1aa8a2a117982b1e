-- ===== src/Runner/Compiled.antt =====
-- run.py and graph/build.py: the compiled graph as the runners use it, invoked once and then again
-- with each decision. The engine keeps the run where it stopped, which stands for its checkpoint.
pub mod Reached
pub mod Delivered
use agent_orchestration_syst.Common.{ℕ, suc, Option, none, some, List, [], ◌∷◌, ◌>>=◌}
use agent_orchestration_syst.Schemas.{HumanDecision}
use agent_orchestration_syst.Graph.World.{GraphConfig, World}
use agent_orchestration_syst.Graph.Nodes.Escalation.{interrupt_payload, source_text}
use agent_orchestration_syst.Graph.Run.{Run}
use agent_orchestration_syst.Graph.Run.Ends.{interrupted, ended, raised, Stopped, invoke}
use agent_orchestration_syst.Runner.{Payload}
use agent_orchestration_syst.Runner.Traced.{TracedApp, TracedResult}

-- What `app.invoke` gives of a run without an interruption: the state.
abbrev pub state_result : Option Payload → Run → TracedResult
state_result interrupt r = record {
  invoked = record { interrupt = interrupt; escalation = r.state.escalation };
  trace_events = r.state.trace_events;
  status = r.state.status;
  plan = r.state.plan;
}

-- What `app.invoke` gives of a run that stopped. An interrupted run has gone through
-- `human_escalation` up to `interrupt`, which may raise.
unfoldable pub result_of : GraphConfig → Stopped → Option TracedResult
unfolding source_text
result_of c (interrupted r) = interrupt_payload c r.state >>= λ (source, escalation).
    some (state_result (some (record { escalation = escalation; source = source_text source })) r)
result_of c (ended r) = some (state_result none r)
result_of c raised = none

-- The answers from outside to an invocation that brings a decision.
abbrev pub with_decision : HumanDecision → (ℕ → ℕ → World) → ℕ → ℕ → World
with_decision d answers i j = record (answers i j) { decision = d }

-- The invocations, of which the `k`-th has the answers `answers k`, each of at most `fuel` + 1
-- supersteps.
module _ (c : GraphConfig) (answers : ℕ → ℕ → ℕ → World) (fuel : ℕ) where
  -- `app.invoke(Command(resume=decision))` on a run that waits.
  unfoldable pub resume : (k : ℕ) → Stopped → HumanDecision → Option Stopped
  resume k (interrupted r) d = invoke c (with_decision d (answers k)) fuel r
  resume k _ d = none

  unfoldable pub resume_all : (k : ℕ) → Option Stopped → List HumanDecision → Option Stopped
  unfolding resume
  resume_all k stop [] = stop
  resume_all k stop (d ∷ decisions) = resume_all (suc k) (stop >>= λ s. resume k s d) decisions

  unfoldable pub compiled : (first : Run) → List HumanDecision → Option Stopped
  unfolding resume_all
  compiled first decisions = resume_all 1 (invoke c (answers 0) fuel first) decisions

  unfoldable pub compiled_app : (first : Run) → TracedApp
  unfolding compiled result_of
  compiled_app first decisions = compiled first decisions >>= result_of c
