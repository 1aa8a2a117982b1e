-- ===== src/Tracing/Pricing.antt =====
-- tracing/pricing.py. Prices are micro-dollars for a million tokens, so that the cost of some
-- tokens is a number of millionths of a micro-dollar, without rounding.
use agent_orchestration_syst.Common.{ℕ, ◌+◌, ◌*◌, String, Option, some, ◌>>=◌, get_or}
use agent_orchestration_syst.Common.Dict.{Dict, lookup}

pub record Price : Type 0 where
  pub input_per_million : ℕ
  pub output_per_million : ℕ

-- `estimate_cost`. The default price is read first, also where it is not needed, and raises
-- where there is none.
unfoldable pub estimate_cost :
    (model_pricing : Dict Price)
    → (model_name : String) → (input_tokens output_tokens : ℕ) → Option ℕ
estimate_cost model_pricing model_name input_tokens output_tokens =
    lookup "_default" model_pricing >>= λ (default : Price).
    let pricing = get_or (lookup model_name model_pricing) default in
    some (input_tokens * pricing.input_per_million + output_tokens * pricing.output_per_million)
