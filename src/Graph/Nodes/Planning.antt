-- ===== src/Graph/Nodes/Planning.antt =====
-- The nodes `intake`, `plan_task`, `synthesize`, `deliver` and `reject_task`.
use agent_orchestration_syst.Common.{
  String, Bool, Option, some, List, [], ◌∷◌, ◌++◌, ◌&&◌, map, any, length, if◌then◌else◌, ◌>>=◌,
  concat, join, take_chars, or_text, get_or,
}
use agent_orchestration_syst.Schemas.{SubTask, ExecutionPlan}
use agent_orchestration_syst.Memory.Models.{MemoryRecord}
use agent_orchestration_syst.Graph.State.{
  Attributes, success, failure, Node, of_node, OrchestratorState, Status, no_update,
}
use agent_orchestration_syst.Graph.World.{
  GraphConfig, MemoryCall, save, add, text, plan_dump, World, usage_entry,
}
use agent_orchestration_syst.Graph.Nodes.Effects.{Effects, trace_event, saved, cleared}

labelled : (label : String) → List String → String
labelled label [] = ""
labelled label (x ∷ xs) = concat (label ∷ join "; " (x ∷ xs) ∷ [])

-- One block of `_format_memories`.
format_memory : MemoryRecord → String
unfolding labelled
format_memory m = concat (
    "- Past task: "
    ∷ m.task
    ∷ "\n  Approach that worked: "
    ∷ m.approach_summary
    ∷ labelled "\n  Known facts: " m.facts
    ∷ labelled "\n  User preferences: " m.preferences
    ∷ [])

unfoldable pub format_memories : List MemoryRecord → String
unfolding format_memory
format_memories memories = join "\n" (map format_memory memories)

-- `any(st.sensitive for st in plan.subtasks)`
unfoldable pub any_sensitive : ExecutionPlan → Bool
any_sensitive plan = any (λ (st : SubTask). st.sensitive) plan.subtasks

-- The memories that were found replace the context that the caller gave.
unfoldable pub recalled : List MemoryRecord → String → String
recalled [] old = old
recalled (m ∷ ms) old = format_memories (m ∷ ms)

unfoldable pub intake : GraphConfig → World → OrchestratorState → Option Effects
unfolding recalled
intake c w s =
    let task_id = or_text s.task_id w.uuid in
    let user_id = or_text s.user_id "anonymous" in
    let memories = if c.long_term_memory then w.query s.task user_id else [] in
    some (record {
      update = record no_update {
        task_id = some task_id;
        user_id = some user_id;
        memory_context = some (recalled memories s.memory_context);
        trace_events =
            trace_event w (of_node Node.intake) "system" success
              (Attributes.memory_hits (length memories)) [];
      };
      calls =
          if c.working_memory
          then save task_id "task" (text s.task) ∷ save task_id "user_id" (text user_id) ∷ []
          else [];
    })

-- The empty `completed` and `retry_counts` of the source's update are merged, so they change
-- nothing and are left out.
unfoldable pub plan_task : GraphConfig → World → OrchestratorState → Option Effects
plan_task c w s = w.create_plan s.task s.memory_context >>= λ (plan, agent). some (record {
  update = record no_update {
    plan = some plan;
    review_cycles = some 0;
    trace_events =
        trace_event w (of_node Node.plan_task) "supervisor" success
          (Attributes.planned plan.confidence (length plan.subtasks) plan.reasoning
            (any_sensitive plan) agent.last_prompt agent.last_response_text)
          (usage_entry (of_node Node.plan_task) agent);
  };
  calls = saved c s.task_id "plan" (plan_dump plan);
})

unfoldable pub synthesize : GraphConfig → World → OrchestratorState → Option Effects
synthesize c w s = w.synthesize s.task s.completed >>= λ (final_output, agent). some (record {
  update = record no_update {
    final_output = some final_output;
    trace_events =
        trace_event w (of_node Node.synthesize) "supervisor" success
          (Attributes.synthesized (take_chars 200 final_output) agent.last_prompt
            agent.last_response_text)
          (usage_entry (of_node Node.synthesize) agent);
  };
  calls = saved c s.task_id "final_output" (text final_output);
})

-- The memory of a delivered task, where the graph is given both memory arguments.
unfoldable pub remember : GraphConfig → World → OrchestratorState → Option (List MemoryCall)
remember c w s =
    if c.long_term_memory && c.memory_extractor
    then (s.plan >>= λ plan.
        w.extract (get_or s.user_id "anonymous") s.task plan s.completed (get_or s.final_output "")
        >>= λ memory. some (add memory ∷ []))
    else some []

unfoldable pub deliver : GraphConfig → World → OrchestratorState → Option Effects
unfolding remember
deliver c w s = remember c w s >>= λ added. some (record {
  update = record no_update {
    status = some Status.completed;
    trace_events = trace_event w (of_node Node.deliver) "system" success Attributes.nothing [];
  };
  calls = added ++ cleared c s.task_id;
})

unfoldable pub reject_task : GraphConfig → World → OrchestratorState → Option Effects
reject_task c w s = some (record {
  update = record no_update {
    status = some Status.rejected;
    trace_events = trace_event w (of_node Node.reject_task) "system" failure Attributes.nothing [];
  };
  calls = cleared c s.task_id;
})
