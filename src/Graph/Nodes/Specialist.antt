-- ===== src/Graph/Nodes/Specialist.antt =====
-- The node `run_specialist`, which runs on the state that a `Send` carries.
use agent_orchestration_syst.Common.{
  ℕ, ◌+◌, String, Bool, Option, none, some, List, [], ◌∷◌, ◌==◌, if◌then◌else◌, ◌>>=◌, get_or,
  is_some, concat,
}
use agent_orchestration_syst.Common.Dict.{Dict, lookup}
use agent_orchestration_syst.Schemas.{ExecutionPlan, SubTask, SubtaskResult, value}
use agent_orchestration_syst.Graph.State.{
  Attributes, success, failure, run_specialist_of, Update, no_update,
}
use agent_orchestration_syst.Graph.World.{AgentCall, GraphConfig, result_dump, World, usage_entry}
use agent_orchestration_syst.Graph.Nodes.Effects.{Effects, trace_event, saved}

-- The dictionary of a `Send("run_specialist", …)`.
pub record SpecialistState : Type 0 where
  pub plan : ExecutionPlan
  pub completed : Dict SubtaskResult
  pub retry_counts : Dict ℕ
  pub subtask_feedback : Dict String
  pub subtask_id : String
  pub task_id : Option String

-- `next(st for st in plan.subtasks if st.id == subtask_id)`, which raises where there is none.
unfoldable pub find_subtask : String → List SubTask → Option SubTask
find_subtask id [] = none
find_subtask id (t ∷ ts) = if t.id == id then some t else find_subtask id ts

-- `retry_counts.get(subtask_id, 0) + (0 if result.success else 1)`
unfoldable pub next_retry_count : Dict ℕ → String → Bool → ℕ
next_retry_count retry_counts id succeeded =
    get_or (lookup id retry_counts) 0 + (if succeeded then 0 else 1)

ran_update : GraphConfig → World → SpecialistState → SubTask → SubtaskResult → AgentCall → Update
unfolding value next_retry_count
ran_update c w p subtask result agent = record no_update {
  completed = (p.subtask_id, some result) ∷ [];
  retry_counts =
      (p.subtask_id, some (next_retry_count p.retry_counts p.subtask_id result.success)) ∷ [];
  trace_events =
      trace_event w (run_specialist_of p.subtask_id) (value subtask.specialist)
        (if result.success then success else failure)
        (Attributes.ran p.subtask_id result.output result.error
          (is_some (lookup p.subtask_id p.subtask_feedback)) result.tool_calls agent.last_prompt
          agent.last_response_text (if c.use_celery then "celery" else "in_process"))
        (usage_entry (run_specialist_of p.subtask_id) agent);
}

-- The worker's payload holds the same result, prompt, response and usage as the agent itself.
unfoldable pub run_specialist : GraphConfig → World → SpecialistState → Option Effects
unfolding ran_update
run_specialist c w p = find_subtask p.subtask_id p.plan.subtasks >>= λ subtask.
    w.run subtask.specialist subtask p.completed (lookup p.subtask_id p.subtask_feedback)
    >>= λ (result, agent). some (record {
      update = ran_update c w p subtask result agent;
      calls = saved c p.task_id (concat ("subtask:" ∷ p.subtask_id ∷ [])) (result_dump result);
    })
