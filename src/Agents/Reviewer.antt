-- ===== src/Agents/Reviewer.antt =====
-- agents/reviewer.py: the agent that judges the results of all subtasks.
use agent_orchestration_syst.Common.{
  String, Bool, true, false, Option, List, [], ◌∷◌, concat, join, get_or, or_text,
}
use agent_orchestration_syst.Common.Dict.{Dict}
use agent_orchestration_syst.Schemas.{ReviewResult, SubtaskResult, value}
use agent_orchestration_syst.Agents.Base.{BaseAgent, StructuredModel, new_agent, structured}

abbrev pub reviewer_system_prompt : String
reviewer_system_prompt =
    "You are the Reviewer agent. You receive the original task and every completed subtask's output. Judge whether the outputs, taken together, actually satisfy the task's requirements and expected output formats.\n\n- Set `approved` to false if any output is incomplete, wrong, or doesn't match its expected format, and list the offending subtask ids in `subtasks_to_redo` with specific, actionable `feedback`.\n- Set `requires_human_review` to true if the task involves financial transactions, data deletion, external communications sent on the user's behalf, or anything else where a wrong answer would be costly.\n- `score` should reflect overall quality, not just pass/fail.\n"

abbrev pub new_reviewer : (model_name : String) → BaseAgent
new_reviewer model_name = new_agent model_name reviewer_system_prompt

-- How a truth value is printed.
abbrev pub bool_text : Bool → String
bool_text true = "True"
bool_text false = "False"

-- The lines of `review`, with the error where there is no output.
unfoldable pub outcome_lines : Dict SubtaskResult → List String
unfolding value
outcome_lines [] = []
outcome_lines ((id, r) ∷ rest) =
    concat (
      "["
      ∷ id
      ∷ "] ("
      ∷ value r.specialist
      ∷ ", success="
      ∷ bool_text r.success
      ∷ "): "
      ∷ or_text r.output (get_or r.error "None")
      ∷ [])
    ∷ outcome_lines rest

-- `ReviewerAgent.review`
unfoldable pub review :
    StructuredModel ReviewResult
    → BaseAgent
    → (task : String) → Dict SubtaskResult
    → Option (Option ReviewResult × BaseAgent)
unfolding outcome_lines structured
review m agent task results =
    let outputs = join "\n\n" (outcome_lines results) in
    structured m agent
      (concat ("Original task:\n" ∷ task ∷ "\n\nSubtask outputs:\n" ∷ outputs ∷ []))
