-- ===== src/Agents/Specialists.antt =====
-- agents/specialists.py: one attempt of a specialist at a subtask, around the loop of model and
-- tool calls.
pub mod Counted
pub mod Bounds
pub mod Calls
use agent_orchestration_syst.Common.{
  suc, String, true, false, Option, none, some, List, [], ◌∷◌, ◌==◌, if◌then◌else◌, concat, join,
  or_text, truthy, get_or,
}
use agent_orchestration_syst.Common.Dict.{Dict, contains}
use agent_orchestration_syst.Schemas.{SpecialistType, SubTask, SubtaskResult}
use agent_orchestration_syst.Tools.Registry.{RegisteredTool, ToolRegistry, list_tools_for}
use agent_orchestration_syst.Agents.Session.{
  system, human, given, refused, Outside, Session, max_tool_iterations, count_call,
}
use agent_orchestration_syst.Agents.ToolLoop.{
  Turn, settled, unsettled, aborted, iterate, force_answer,
}

-- The handler of all exceptions.
unfoldable pub give_up : SubTask → SpecialistType → String → Session → SubtaskResult × Session
give_up subtask specialist error s = (
  record {
    subtask_id = subtask.id;
    specialist = specialist;
    success = false;
    output = none;
    confidence = 0;
    tool_calls = s.tool_calls_made;
    error = some error;
  },
  record s { last_usage = some s.total_usage },
)

-- The call with structured output, and the result.
unfoldable pub conclude : Outside → SubTask → SpecialistType → Session → SubtaskResult × Session
unfolding give_up
conclude o subtask specialist s = elim (o.structured s.calls s.messages) [
  | refused error ↦ give_up subtask specialist error (record s { calls = suc s.calls })
  | given usage parsed ↦
      let s' = count_call usage s in
      elim parsed [
        | none ↦ give_up subtask specialist o.none_has_no_output s'
        | some output ↦ (
          record {
            subtask_id = subtask.id;
            specialist = specialist;
            success = true;
            output = some output.output;
            confidence = output.confidence;
            tool_calls = s'.tool_calls_made;
            error = none;
          },
          record s' { last_usage = some s'.total_usage; last_response_text = some output.output },
        )
      ]
]

unfoldable pub after_force : Outside → SubTask → SpecialistType → Turn → SubtaskResult × Session
unfolding conclude give_up
after_force o subtask specialist (settled s) = conclude o subtask specialist s
after_force o subtask specialist (unsettled s) = conclude o subtask specialist s
after_force o subtask specialist (aborted error s) = give_up subtask specialist error s

unfoldable pub after_loop : Outside → SubTask → SpecialistType → Turn → SubtaskResult × Session
unfolding conclude give_up after_force force_answer
after_loop o subtask specialist (settled s) = conclude o subtask specialist s
after_loop o subtask specialist (unsettled s) = after_force o subtask specialist (force_answer o s)
after_loop o subtask specialist (aborted error s) = give_up subtask specialist error s

-- `dependency_context`. A result without an output reads "None".
unfoldable pub dependency_lines : Dict SubtaskResult → List String → List String
dependency_lines [] depends_on = []
dependency_lines ((id, result) ∷ rest) depends_on =
    let lines = dependency_lines rest depends_on in
    let text = get_or result.output "None" in
    if contains id depends_on then concat ("[" ∷ id ∷ "] " ∷ text ∷ []) ∷ lines else lines

unfoldable pub prompt_of : SubTask → Dict SubtaskResult → Option String → String
unfolding dependency_lines
prompt_of subtask context feedback =
    let dependency_context = join "\n" (dependency_lines context subtask.depends_on) in
    concat (
      "Subtask: "
      ∷ subtask.description
      ∷ "\nRequired inputs: "
      ∷ or_text (some (join ", " subtask.required_inputs)) "none"
      ∷ "\nExpected output format: "
      ∷ subtask.expected_output_format
      ∷ "\n"
      ∷ (if dependency_context == ""
          then ""
          else concat ("\nOutputs from dependency subtasks:\n" ∷ dependency_context ∷ []))
      ∷ (if truthy feedback
          then concat (
              "\n\nThis is a retry. Feedback on the previous attempt:\n"
              ∷ or_text feedback ""
              ∷ "\nAddress this feedback in your new attempt."
              ∷ [])
          else "")
      ∷ [])

-- The agent: its prompt, its tools, which are listed when it is made, and what it remembers.
pub record SpecialistAgent : Type 0 where
  pub specialist_type : SpecialistType
  pub system_prompt : String
  pub lc_tools : List RegisteredTool
  pub last_response_text : Option String

abbrev pub make_agent : SpecialistType → (system_prompt : String) → ToolRegistry → SpecialistAgent
make_agent specialist system_prompt registry = record {
  specialist_type = specialist;
  system_prompt = system_prompt;
  lc_tools = list_tools_for registry specialist;
  last_response_text = none;
}

-- The variables of `run` before its loop.
abbrev pub opening : SpecialistAgent → (prompt : String) → ToolRegistry → Session
opening agent prompt registry = record {
  messages = system agent.system_prompt ∷ human prompt ∷ [];
  tool_calls_made = [];
  total_usage = record { input_tokens = 0; output_tokens = 0 };
  last_usage = none;
  last_response_text = agent.last_response_text;
  registry = registry;
  calls = 0;
}

-- `run`
unfoldable pub run :
    Outside
    → SpecialistAgent
    → SubTask
    → Dict SubtaskResult
    → (feedback : Option String) → ToolRegistry
    → SubtaskResult × Session
unfolding prompt_of iterate after_loop
run o agent subtask context feedback registry = after_loop o subtask agent.specialist_type (
    iterate o agent.specialist_type agent.lc_tools max_tool_iterations
      (opening agent (prompt_of subtask context feedback) registry))
