-- ===== src/Memory/Extractor.antt =====
-- memory/extractor.py: the memory of a finished task. The id and the times that pydantic fills in
-- are given.
use agent_orchestration_syst.Common.{
  ℕ, String, true, Option, some, List, [], ◌∷◌, ◌++◌, ◌>>=◌, map, concat, join, sorted_set,
}
use agent_orchestration_syst.Common.Dict.{Dict}
use agent_orchestration_syst.Schemas.{ExecutionPlan, SubtaskResult}
use agent_orchestration_syst.Memory.Models.{ExtractedMemory, MemoryRecord}
use agent_orchestration_syst.Agents.Base.{BaseAgent, StructuredModel, new_agent, structured}
use agent_orchestration_syst.Agents.Supervisor.{output_lines}

abbrev pub extractor_system_prompt : String
extractor_system_prompt =
    "You just watched a multi-agent system complete a task. Extract what's worth remembering for next time a similar task comes in:\n\n- `approach_summary`: what decomposition/approach was used and why it worked.\n- `facts`: concrete, reusable domain facts discovered (not task-specific trivia).\n- `preferences`: anything about how the user likes results delivered (format, tone, level of detail, constraints) -- only if actually evidenced by the task.\n- `importance`: how useful this memory will be for future similar tasks. Give routine, easily-repeatable tasks a lower score than tasks with a hard-won or non-obvious approach.\n"

abbrev pub new_extractor : (model_name : String) → BaseAgent
new_extractor model_name = new_agent model_name extractor_system_prompt

-- The tools that the results called, in the order of the calls.
unfoldable pub called_tools : Dict SubtaskResult → List String
called_tools [] = []
called_tools ((_, r) ∷ rest) = map (λ call. call.tool_name) r.tool_calls ++ called_tools rest

-- The prompt of `extract`; its lines are those of the supervisor's synthesis.
unfoldable pub extraction_prompt :
    (task : String) → ExecutionPlan → Dict SubtaskResult → (final_output : String) → String
unfolding output_lines
extraction_prompt task plan results final_output = concat (
    "Task: "
    ∷ task
    ∷ "\n\nPlan reasoning: "
    ∷ plan.reasoning
    ∷ "\n\nSubtask outputs:\n"
    ∷ join "\n\n" (output_lines results)
    ∷ "\n\nFinal delivered output:\n"
    ∷ final_output
    ∷ [])

-- `extract`, which raises where the answer could not be parsed.
unfoldable pub extract :
    StructuredModel ExtractedMemory
    → BaseAgent
    → (id : String) → (created_at last_accessed_at : ℕ) → (user_id task : String) → ExecutionPlan
    → Dict SubtaskResult
    → (final_output : String) → Option (MemoryRecord × BaseAgent)
unfolding called_tools extraction_prompt structured
extract m agent id created_at last_accessed_at user_id task plan results final_output =
    structured m agent (extraction_prompt task plan results final_output) >>= λ (parsed, agent').
    parsed >>= λ (extracted : ExtractedMemory). some (
      record {
        id = id;
        user_id = user_id;
        task = task;
        approach_summary = extracted.approach_summary;
        tools_used = sorted_set (called_tools results);
        facts = extracted.facts;
        preferences = extracted.preferences;
        success = true;
        importance = extracted.importance;
        access_count = 0;
        created_at = created_at;
        last_accessed_at = last_accessed_at;
      },
      agent',
    )
