-- ===== src/Config.antt =====
-- config.py: the settings that the graph, the tools and the memories read. Thresholds are in
-- millionths, spans of days in seconds.
use agent_orchestration_syst.Common.{ℕ, String, Option, none}

pub record Settings : Type 0 where
  pub openai_api_key : Option String
  pub anthropic_api_key : Option String
  pub groq_api_key : Option String
  pub plan_confidence_threshold : ℕ
  pub review_score_threshold : ℕ
  pub max_specialist_retries : ℕ
  pub max_review_cycles : ℕ
  pub sandbox_workdir : String
  pub code_execution_timeout_seconds : ℕ
  pub working_memory_ttl_seconds : ℕ
  pub memory_top_k : ℕ
  pub memory_importance_half_life : ℕ
  pub memory_min_importance : ℕ
  pub memory_min_age_before_expiry : ℕ
  pub memory_consolidation_similarity_threshold : ℕ

-- The defaults of the class `Settings`.
abbrev pub default_settings : Settings
default_settings = record {
  openai_api_key = none;
  anthropic_api_key = none;
  groq_api_key = none;
  plan_confidence_threshold = 600_000;
  review_score_threshold = 700_000;
  max_specialist_retries = 2;
  max_review_cycles = 2;
  sandbox_workdir = "./sandbox";
  code_execution_timeout_seconds = 10;
  working_memory_ttl_seconds = 3600;
  memory_top_k = 3;
  memory_importance_half_life = 2_592_000;
  memory_min_importance = 50_000;
  memory_min_age_before_expiry = 604_800;
  memory_consolidation_similarity_threshold = 930_000;
}
