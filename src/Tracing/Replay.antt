-- ===== src/Tracing/Replay.antt =====
-- tracing/replay.py: the checkpoints of a task, and a run that is forked from one. The compiled
-- graph with its checkpoint store is a parameter.
use agent_orchestration_syst.Common.{String, List, [], ◌∷◌, ◌++◌, map}

-- What the graph gives of a past state: `config["configurable"]["checkpoint_id"]`, `next`, `config`
-- and `values`.
pub record Snapshot (C U : Type 0) : Type 0 where
  pub checkpoint_id : String
  pub next : List String
  pub config : C
  pub values : U

pub record CheckpointSummary (C U : Type 0) : Type 0 where
  pub checkpoint_id : String
  pub next_nodes : List String
  pub config : C
  pub values : U

-- The graph's operations on its store G: the history of a thread from the newest, a fork, and a run
-- from a checkpoint, with a result R.
pub record Engine (G C U R : Type 0) : Type 0 where
  pub get_state_history : G → (thread_id : String) → List (Snapshot C U)
  pub update_state : G → C → U → C × G
  pub invoke : G → C → R × G

-- `history.reverse()`
unfoldable pub reversed : {A : Type 0} → List A → List A
reversed [] = []
reversed (x ∷ xs) = reversed xs ++ x ∷ []

module _ {G C U R : Type 0} (engine : Engine G C U R) where
  -- `list_checkpoints`
  unfoldable pub list_checkpoints : G → (task_id : String) → List (CheckpointSummary C U)
  unfolding reversed
  list_checkpoints g task_id =
      map
        (λ (s : Snapshot C U). record {
          checkpoint_id = s.checkpoint_id;
          next_nodes = s.next;
          config = s.config;
          values = s.values;
        })
        (reversed (engine.get_state_history g task_id))

  -- `replay_from_checkpoint`
  unfoldable pub replay_from_checkpoint : G → CheckpointSummary C U → (state_update : U) → R × G
  replay_from_checkpoint g checkpoint state_update =
      let (forked_config, g') = engine.update_state g checkpoint.config state_update in
      engine.invoke g' forked_config
