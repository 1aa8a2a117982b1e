-- ===== src/Graph/Nodes/Effects.antt =====
-- What a node returns, and its trace entry.
use agent_orchestration_syst.Common.{
  String, Option, none, some, List, [], ◌∷◌, ◌&&◌, if◌then◌else◌, truthy,
}
use agent_orchestration_syst.Graph.State.{
  Attributes, EventStatus, NodeLabel, TraceEvent, Update, UsageEntry,
}
use agent_orchestration_syst.Graph.World.{GraphConfig, MemoryCall, save, Saved, World}

pub record Effects : Type 0 where
  pub update : Update
  pub calls : List MemoryCall

-- `_trace_event`
abbrev pub trace_event :
    World
    → NodeLabel
    → (agent : String) → EventStatus
    → Attributes
    → List UsageEntry
    → List TraceEvent
trace_event w node agent status attributes usage =
    record {
      node = node;
      agent = agent;
      status = status;
      started_at = w.started_at;
      ended_at = w.ended_at;
      attributes = attributes;
      usage = usage;
    }
    ∷ []

-- `if working_memory is not None and state.get("task_id"): working_memory.save(...)`
abbrev pub saved : GraphConfig → Option String → (field : String) → Saved → List MemoryCall
saved c none field v = []
saved c (some task_id) field v =
    if c.working_memory && truthy (some task_id) then save task_id field v ∷ [] else []

-- The same guard around `working_memory.clear`.
abbrev pub cleared : GraphConfig → Option String → List MemoryCall
cleared c none = []
cleared c (some task_id) =
    if c.working_memory && truthy (some task_id) then MemoryCall.clear task_id ∷ [] else []
