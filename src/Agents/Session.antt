-- ===== src/Agents/Session.antt =====
-- agents/specialists.py: the messages of an attempt, what it asks for outside, and its variables.
-- The model, langchain's check of a tool's arguments and the clock are parameters.
use agent_orchestration_syst.Common.{
  ℕ, suc, ◌+◌, String, Option, none, some, List, [], ◌∷◌, ◌++◌, ◌⊎◌,
}
use agent_orchestration_syst.Common.Dict.{Dict}
use agent_orchestration_syst.Schemas.{Json, SpecialistOutput, TokenUsage, ToolCallLog}
use agent_orchestration_syst.Tools.Registry.{Clock, ToolRegistry}

-- A tool call that a model asks for.
pub record ToolCall : Type 0 where
  pub name : String
  pub args : Dict Json
  pub id : String

pub record AiMessage : Type 0 where
  pub content : String
  pub tool_calls : List ToolCall
  pub usage : Option TokenUsage

pub data Message : Type 0 where
  system human : String → Message
  ai : AiMessage → Message
  tool : (content tool_call_id : String) → Message

-- What a call of the model gives, or the text of what it raises.
pub data Reply : Type 0 where
  answered : AiMessage → Reply
  failed : String → Reply

-- What the call with structured output gives: the usage of the raw message and the parsed
-- output, where it could be parsed.
pub data Final : Type 0 where
  given : Option TokenUsage → Option SpecialistOutput → Final
  refused : String → Final

-- What is not in the repository. A model may answer by how often it was called. `check_args` is
-- langchain's check of the arguments by the tool's schema, which gives them or raises.
pub record Outside : Type 0 where
  pub with_tools : (calls : ℕ) → List Message → Reply
  pub without_tools : (calls : ℕ) → List Message → Reply
  pub structured : (calls : ℕ) → List Message → Final
  pub check_args : (args_schema : String) → Dict Json → Dict Json ⊎ String
  pub clock : (calls : ℕ) → Clock
  pub number : ℕ → String
  pub none_has_no_output : String

-- The local variables of `run`, the agent's `last_usage` and `last_response_text`, the registry,
-- and how many model calls were made.
pub record Session : Type 0 where
  pub messages : List Message
  pub tool_calls_made : List ToolCallLog
  pub total_usage : TokenUsage
  pub last_usage : Option TokenUsage
  pub last_response_text : Option String
  pub registry : ToolRegistry
  pub calls : ℕ

-- `_MAX_TOOL_ITERATIONS`
abbrev pub max_tool_iterations : ℕ
max_tool_iterations = 4

-- `_accumulate`
unfoldable pub accumulate : TokenUsage → Option TokenUsage → TokenUsage
accumulate total none = total
accumulate total (some u) = record {
  input_tokens = total.input_tokens + u.input_tokens;
  output_tokens = total.output_tokens + u.output_tokens;
}

-- `_record_usage` and `_accumulate` after a call of the model.
unfoldable pub count_call : Option TokenUsage → Session → Session
unfolding accumulate
count_call usage s = record s {
  last_usage = usage;
  total_usage = accumulate s.total_usage usage;
  calls = suc s.calls;
}

abbrev pub append : Message → Session → Session
append message s = record s { messages = s.messages ++ message ∷ [] }
