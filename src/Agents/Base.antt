-- ===== src/Agents/Base.antt =====
-- agents/base.py: which provider serves a model, and the two kinds of call that an agent makes. The
-- model is a parameter: a call gives an answer with the usage that the provider reports, or raises.
use agent_orchestration_syst.Common.{
  ℕ, zero, suc, String, Option, none, some, [], ◌∷◌, ◌>>=◌, if◌then◌else◌, get_or, truthy, any,
}
use agent_orchestration_syst.Common.Dict.{Dict, lookup}
use agent_orchestration_syst.Schemas.{TokenUsage}
use agent_orchestration_syst.Config.{Settings}
use text.Mathlib.Text.{starts_with}

pub data Provider : Type 0 where
  anthropic openai groq : Provider

-- The client of a provider. Without a key the client reads the environment itself.
pub record Llm : Type 0 where
  pub provider : Provider
  pub model : String
  pub temperature : ℕ
  pub api_key : Option String

-- `{"api_key": key} if key else {}`
abbrev pub key_of : Option String → Option String
key_of key = if truthy key then key else none

-- `s[n:]`
unfoldable pub drop_chars : ℕ → String → String
drop_chars zero s = s
drop_chars (suc n) String.[] = String.[]
drop_chars (suc n) (String.◌∷◌ c s) = drop_chars n s

-- `get_llm`. An unknown model raises.
unfoldable pub get_llm : Settings → (model_name : String) → (temperature : ℕ) → Option Llm
unfolding drop_chars
get_llm settings model_name temperature =
    if starts_with model_name "claude"
    then some (record {
      provider = anthropic;
      model = model_name;
      temperature = temperature;
      api_key = key_of settings.anthropic_api_key;
    })
    else if any (λ prefix. starts_with model_name prefix) ("gpt" ∷ "o1" ∷ "o3" ∷ "o4" ∷ [])
    then some (record {
      provider = openai;
      model = model_name;
      temperature = temperature;
      api_key = key_of settings.openai_api_key;
    })
    else if starts_with model_name "groq:"
    then some (record {
      provider = groq;
      model = drop_chars 5 model_name;
      temperature = temperature;
      api_key = key_of settings.groq_api_key;
    })
    else none

-- The system message and the user message of a call.
pub record Request : Type 0 where
  pub system : String
  pub user : String

-- `usage_metadata` of a message, where it has one.
abbrev pub UsageMetadata : Type 0
UsageMetadata = Option (Dict ℕ)

-- A model that is asked for a structured answer, which is none where it cannot be parsed.
pub record StructuredModel (A : Type 0) : Type 0 where
  pub ask : Request → Option (Option A × UsageMetadata)
  pub model_dump_json : A → String

-- A model that is asked for a text.
abbrev pub TextModel : Type 0
TextModel = Request → Option (String × UsageMetadata)

pub record BaseAgent : Type 0 where
  pub model_name : String
  pub system_prompt : String
  pub last_usage : Option TokenUsage
  pub last_prompt : Option String
  pub last_response_text : Option String

-- `BaseAgent.__init__`
abbrev pub new_agent : (model_name system_prompt : String) → BaseAgent
new_agent model_name system_prompt = record {
  model_name = model_name;
  system_prompt = system_prompt;
  last_usage = none;
  last_prompt = none;
  last_response_text = none;
}

-- What `_record_usage` keeps of the metadata.
unfoldable pub usage_of : UsageMetadata → Option TokenUsage
usage_of none = none
usage_of (some []) = none
usage_of (some (u ∷ usage)) = some (record {
  input_tokens = get_or (lookup "input_tokens" (u ∷ usage)) 0;
  output_tokens = get_or (lookup "output_tokens" (u ∷ usage)) 0;
})

-- `structured`
unfoldable pub structured :
    {A : Type 0} → StructuredModel A → BaseAgent → (prompt : String) → Option (Option A × BaseAgent)
unfolding usage_of
structured m agent prompt =
    m.ask (record { system = agent.system_prompt; user = prompt }) >>= λ (parsed, usage). some (
      parsed,
      record agent {
        last_prompt = some prompt;
        last_usage = usage_of usage;
        last_response_text = parsed >>= λ answer. some (m.model_dump_json answer);
      },
    )

-- `respond`
unfoldable pub respond : TextModel → BaseAgent → (prompt : String) → Option (String × BaseAgent)
unfolding usage_of
respond m agent prompt =
    m (record { system = agent.system_prompt; user = prompt }) >>= λ (text, usage). some (
      text,
      record agent {
        last_prompt = some prompt;
        last_usage = usage_of usage;
        last_response_text = some text;
      },
    )
