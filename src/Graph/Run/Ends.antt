-- ===== src/Graph/Run/Ends.antt =====
-- What `app.invoke` does with the graph of graph/build.py: supersteps until the graph interrupts
-- for a human, ends, or a node raises. That this comes about is shown by what each superstep uses
-- up: attempts within a batch, review cycles between batches.
pub mod Work
pub mod Batches
pub mod Segments
pub mod Invocations
use agent_orchestration_syst.Common.{ℕ, zero, suc, Option, none, some}
use agent_orchestration_syst.Graph.State.{human_escalation}
use agent_orchestration_syst.Graph.World.{GraphConfig, World}
use agent_orchestration_syst.Graph.Routing.{Next, to, finish}
use agent_orchestration_syst.Graph.Run.{advance, Run}

pub data Stopped : Type 0 where
  interrupted : Run → Stopped
  ended : Run → Stopped
  raised : Stopped

-- Where an invocation stops before the next superstep.
abbrev pub at_rest : Next → Run → Option Stopped
at_rest (to human_escalation) r = some (interrupted r)
at_rest finish r = some (ended r)
at_rest _ r = none

-- The supersteps from the `i`-th on, whose answers from outside are `answers i`.
unfoldable pub run_on :
    GraphConfig → (answers : ℕ → ℕ → World) → (fuel i : ℕ) → Run → Option Stopped
run_on c answers zero i r = none
run_on c answers (suc fuel) i r = elim (at_rest r.at r) [
  | some stop ↦ some stop
  | none ↦ elim (advance c (answers i) r) [
    | none ↦ some raised
    | some r' ↦ run_on c answers fuel (suc i) r'
  ]
]

-- `app.invoke`: the first superstep is taken also at a node that waited for a human.
unfoldable pub invoke : GraphConfig → (answers : ℕ → ℕ → World) → (fuel : ℕ) → Run → Option Stopped
unfolding run_on
invoke c answers fuel r = elim (advance c (answers 0) r) [
  | none ↦ some raised
  | some r' ↦ run_on c answers fuel 1 r'
]
