-- ===== src/Agents/Supervisor.antt =====
-- agents/supervisor.py: the agent that plans and synthesizes, and what it sends to its model.
pub mod Prompts
use agent_orchestration_syst.Common.{
  String, Option, List, [], ◌∷◌, ◌==◌, if◌then◌else◌, concat, join, get_or,
}
use agent_orchestration_syst.Common.Dict.{Dict}
use agent_orchestration_syst.Agents.Base.{
  BaseAgent, StructuredModel, TextModel, new_agent, respond, structured,
}
use agent_orchestration_syst.Schemas.{ExecutionPlan, SubtaskResult, value}

-- The two uses of the model.
pub record Model : Type 0 where
  pub planner : StructuredModel ExecutionPlan
  pub writer : TextModel

abbrev pub SupervisorAgent : Type 0
SupervisorAgent = BaseAgent

abbrev pub planning_system_prompt : String
planning_system_prompt =
    "You are the Supervisor agent in a multi-agent orchestration system. Given a user task, break it into an ordered list of subtasks, each assigned to exactly one specialist: research, data_analysis, writing, or code_execution.\n\nRules:\n- Every subtask needs a unique id (e.g. \"st-1\", \"st-2\").\n- Use `depends_on` to list the ids of subtasks that must finish first. Only depend on ids you defined earlier in the plan.\n- Keep subtasks as independent as possible so they can run in parallel when they don't depend on each other.\n- Set `confidence` honestly: lower it if the task is ambiguous, open-ended, or you're unsure a clean decomposition is possible.\n- Mark a subtask `sensitive=True` if it involves a financial transaction, deleting or overwriting data, or sending a communication externally on the user's behalf. A plan with any sensitive subtask is reviewed by a human before any work begins.\n"

abbrev pub synthesis_system_prompt : String
synthesis_system_prompt =
    "You are the Supervisor agent. All specialists have finished their subtasks and the reviewer has approved the results. Combine the subtask outputs into a single, coherent deliverable that directly answers the original task. Do not mention the internal subtask structure to the user.\n"

abbrev pub new_supervisor : (model_name : String) → SupervisorAgent
new_supervisor model_name = new_agent model_name planning_system_prompt

-- The prompt of `create_plan`
unfoldable pub planning_prompt : (task memory_context : String) → String
planning_prompt task memory_context = concat (
    "Task:\n"
    ∷ task
    ∷ (if memory_context == ""
        then ""
        else concat (
            "\n\nRelevant memory from past tasks (use it to inform this plan, but don't assume it applies verbatim):\n"
            ∷ memory_context ∷ []))
    ∷ [])

-- `create_plan`
unfoldable pub create_plan :
    Model
    → SupervisorAgent
    → (task memory_context : String) → Option (Option ExecutionPlan × SupervisorAgent)
unfolding planning_prompt structured
create_plan m a task memory_context = structured m.planner a (planning_prompt task memory_context)

unfoldable pub output_lines : Dict SubtaskResult → List String
unfolding value
output_lines [] = []
output_lines ((id, r) ∷ rest) =
    concat ("[" ∷ id ∷ "] (" ∷ value r.specialist ∷ "): " ∷ get_or r.output "None" ∷ [])
    ∷ output_lines rest

-- `synthesize`, which sets the system prompt first.
unfoldable pub synthesize :
    Model
    → SupervisorAgent
    → (task : String) → Dict SubtaskResult
    → Option (String × SupervisorAgent)
unfolding output_lines respond
synthesize m a task results =
    let outputs = join "\n\n" (output_lines results) in
    let prompt = concat ("Original task:\n" ∷ task ∷ "\n\nSubtask outputs:\n" ∷ outputs ∷ []) in
    respond m.writer (record a { system_prompt = synthesis_system_prompt }) prompt
