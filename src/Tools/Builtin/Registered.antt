-- ===== src/Tools/Builtin/Registered.antt =====
-- tools/builtin.py: `register_builtin_tools`, and which tools it gives to which specialist.
pub mod Visible
use agent_orchestration_syst.Common.{ℕ, String, List, [], ◌∷◌}
use agent_orchestration_syst.Common.Dict.{Dict}
use agent_orchestration_syst.Schemas.{
  Json, SpecialistType, research, data_analysis, writing, code_execution,
}
use agent_orchestration_syst.Tools.Registry.{Outcome, Result, ok, raise, register, ToolRegistry}

-- The functions of the tools, as the registry calls them.
pub record BuiltinTools : Type 0 where
  pub web_search : (start : ℕ) → Dict Json → Outcome
  pub file_read : (start : ℕ) → Dict Json → Outcome
  pub file_write : (start : ℕ) → Dict Json → Outcome
  pub code_execution : (start : ℕ) → Dict Json → Outcome
  pub db_query : (start : ℕ) → Dict Json → Outcome
  pub api_call : (start : ℕ) → Dict Json → Outcome

-- `ALL_SPECIALISTS`
abbrev pub all_specialists : List SpecialistType
all_specialists = research ∷ data_analysis ∷ writing ∷ SpecialistType.code_execution ∷ []

-- The arguments of one `register`.
pub record Registration : Type 0 where
  pub name : String
  pub description : String
  pub func : (start : ℕ) → Dict Json → Outcome
  pub allowed_specialists : List SpecialistType
  pub args_schema : String
  pub rate_limit_per_minute : ℕ

abbrev pub registrations : BuiltinTools → List Registration
registrations tools =
    record {
      name = "web_search";
      description = "Search the web for a query, returns a list of titles + URLs.";
      func = tools.web_search;
      allowed_specialists = research ∷ [];
      args_schema = "WebSearchInput";
      rate_limit_per_minute = 20;
    }
    ∷ record {
      name = "file_read";
      description = "Read a file's contents from the sandboxed workspace.";
      func = tools.file_read;
      allowed_specialists = all_specialists;
      args_schema = "FileReadInput";
      rate_limit_per_minute = 60;
    }
    ∷ record {
      name = "file_write";
      description = "Write content to a file in the sandboxed workspace.";
      func = tools.file_write;
      allowed_specialists = all_specialists;
      args_schema = "FileWriteInput";
      rate_limit_per_minute = 60;
    }
    ∷ record {
      name = "code_execution";
      description = "Execute a Python snippet in a sandboxed subprocess and return stdout.";
      func = tools.code_execution;
      allowed_specialists = SpecialistType.code_execution ∷ data_analysis ∷ [];
      args_schema = "CodeExecutionInput";
      rate_limit_per_minute = 15;
    }
    ∷ record {
      name = "db_query";
      description = "Run a read-only SELECT query against the sandboxed SQLite database.";
      func = tools.db_query;
      allowed_specialists = data_analysis ∷ [];
      args_schema = "DbQueryInput";
      rate_limit_per_minute = 30;
    }
    ∷ record {
      name = "api_call";
      description = "Make an HTTP request to an external API (private/local hosts blocked).";
      func = tools.api_call;
      allowed_specialists = research ∷ data_analysis ∷ [];
      args_schema = "ApiCallInput";
      rate_limit_per_minute = 20;
    }
    ∷ []

infixl 5 ◌>>=◌
abbrev pub ◌>>=◌ : {A B : Type 0} → Result A → (A → Result B) → Result B
ok a >>= f = f a
raise e >>= f = raise e

unfoldable pub register_all : List Registration → ToolRegistry → Result ToolRegistry
register_all [] r = ok r
register_all (t ∷ rest) r =
    register r t.name t.description t.func t.allowed_specialists t.args_schema
      t.rate_limit_per_minute
    >>= register_all rest

-- `register_builtin_tools`
unfoldable pub register_builtin_tools : BuiltinTools → ToolRegistry → Result ToolRegistry
unfolding register_all
register_builtin_tools tools r = register_all (registrations tools) r
