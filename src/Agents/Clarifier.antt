-- ===== src/Agents/Clarifier.antt =====
-- agents/clarifier.py: the agent that answers a human's question about a paused task. The printing
-- of the context as JSON is a parameter.
use agent_orchestration_syst.Common.{String, Option, [], ◌∷◌, concat}
use agent_orchestration_syst.Schemas.{Context}
use agent_orchestration_syst.Agents.Base.{BaseAgent, TextModel, new_agent, respond}

abbrev pub clarifier_system_prompt : String
clarifier_system_prompt =
    "A human reviewer is deciding whether to approve, reject, modify, or take over a paused task. You have the full context of what happened so far. Answer their question directly and concisely, using only this context. If the context doesn't contain the answer, say so plainly -- don't guess.\n"

abbrev pub new_clarifier : (model_name : String) → BaseAgent
new_clarifier model_name = new_agent model_name clarifier_system_prompt

-- `ClarificationAgent.answer`
unfoldable pub answer :
    (dumps : Context → String)
    → TextModel
    → BaseAgent
    → Context
    → (question : String) → Option (String × BaseAgent)
unfolding respond
answer dumps m agent context question =
    respond m agent (concat ("Context:\n" ∷ dumps context ∷ "\n\nQuestion: " ∷ question ∷ []))
