-- ===== src/Budget/Config.antt =====
-- `CloudBudgetConfig` and `ProviderBudgetConfig` of core/cloud_budget.py and what they read from the
-- environment. A text that is no number gives the default; a number below 0 counts as 0.
use gestalt_workframe.Prelude.{
  ℕ, String, Bool, false, Option, none, some, [], ◌∷◌, ◌||◌, ◌==◌, text_key,
}
use gestalt_workframe.Prelude.Int.{ℤ, pos_part}
use gestalt_workframe.Prelude.Assoc.{Assoc, get}

-- The environment as Python's library reads it: `flag` is the text after `strip().lower()`, `int` and
-- `amount` the number, the latter in the unit of the field that is read, and none where it is no number
-- or is unset. `upper` is `str.upper` and `++` joins texts.
pub record Env : Type 0 where
  pub flag : String → Option String
  pub int : String → Option ℤ
  pub amount : String → Option ℤ
  pub text : String → Option String
  pub upper : String → String
  pub join : String → String → String

flag_value : Bool → Option String → Bool
flag_value default none = default
flag_value default (some raw) = raw == "1" || raw == "true" || raw == "yes" || raw == "on"

number_value : ℕ → Option ℤ → ℕ
number_value default none = default
number_value default (some n) = pos_part n

text_value : String → Option String → String
text_value default none = default
text_value default (some t) = t

unfoldable pub env_bool : Env → String → Bool
unfolding flag_value
env_bool env name = flag_value false (env.flag name)

unfoldable pub env_int : Env → String → ℕ
unfolding number_value
env_int env name = number_value 0 (env.int name)

unfoldable pub env_float : Env → String → ℕ → ℕ
unfolding number_value
env_float env name default = number_value default (env.amount name)

pub record CloudBudgetConfig : Type 0 where
  pub enabled : Bool
  pub max_calls_per_turn : ℕ
  pub max_calls_per_session : ℕ
  pub max_calls_per_day : ℕ
  pub max_calls_per_month : ℕ
  pub max_daily_usd : ℕ
  pub max_monthly_usd : ℕ
  pub max_input_tokens_per_call : ℕ
  pub max_output_tokens_per_call : ℕ
  pub input_price_usd_per_million : ℕ
  pub output_price_usd_per_million : ℕ
  pub sqlite_path : String

-- The defaults of the class: 3 and 15 USD per million tokens.
abbrev pub default_config : CloudBudgetConfig
default_config = record {
  enabled = false;
  max_calls_per_turn = 0;
  max_calls_per_session = 0;
  max_calls_per_day = 0;
  max_calls_per_month = 0;
  max_daily_usd = 0;
  max_monthly_usd = 0;
  max_input_tokens_per_call = 0;
  max_output_tokens_per_call = 0;
  input_price_usd_per_million = 3000000;
  output_price_usd_per_million = 15000000;
  sqlite_path = "database.db";
}

unfoldable pub cloud_config_from_env : Env → CloudBudgetConfig
unfolding env_bool env_int env_float text_value
cloud_config_from_env env = record {
  enabled = env_bool env "ENABLE_CLOUD_SPILLOVER";
  max_calls_per_turn = env_int env "CLOUD_SPILLOVER_MAX_CALLS_PER_TURN";
  max_calls_per_session = env_int env "CLOUD_SPILLOVER_MAX_CALLS_PER_SESSION";
  max_calls_per_day = env_int env "CLOUD_SPILLOVER_MAX_CALLS_PER_DAY";
  max_calls_per_month = env_int env "CLOUD_SPILLOVER_MAX_CALLS_PER_MONTH";
  max_daily_usd = env_float env "CLOUD_SPILLOVER_MAX_DAILY_USD" 0;
  max_monthly_usd = env_float env "CLOUD_SPILLOVER_MAX_MONTHLY_USD" 0;
  max_input_tokens_per_call = env_int env "CLOUD_SPILLOVER_MAX_INPUT_TOKENS_PER_CALL";
  max_output_tokens_per_call = env_int env "CLOUD_SPILLOVER_MAX_OUTPUT_TOKENS_PER_CALL";
  input_price_usd_per_million = env_float env "CLOUD_SPILLOVER_INPUT_PRICE_USD_PER_MILLION" 3000000;
  output_price_usd_per_million =
      env_float env "CLOUD_SPILLOVER_OUTPUT_PRICE_USD_PER_MILLION" 15000000;
  sqlite_path = text_value "database.db" (env.text "CLOUD_SPILLOVER_DB_PATH");
}

pub record ProviderBudgetConfig : Type 0 where
  pub provider_id : String
  pub enabled : Bool
  pub max_daily_usd : ℕ
  pub max_monthly_usd : ℕ

abbrev provider_budget_env_prefixes : Assoc String String
provider_budget_env_prefixes =
    ("openrouter", "OPENROUTER_BUDGET")
    ∷ ("anthropic", "ANTHROPIC_BUDGET")
    ∷ ("google", "GOOGLE_BUDGET")
    ∷ ("openai", "OPENAI_BUDGET")
    ∷ []

unfoldable pub provider_config_from_env : Env → String → ProviderBudgetConfig
unfolding env_bool env_float text_value get
provider_config_from_env env provider =
    let prefix =
      text_value (env.join (env.upper provider) "_BUDGET")
        (get provider provider_budget_env_prefixes) in
    record {
      provider_id = provider;
      enabled = env_bool env (env.join prefix "_ENABLED");
      max_daily_usd = env_float env (env.join prefix "_MAX_DAILY_USD") 0;
      max_monthly_usd = env_float env (env.join prefix "_MAX_MONTHLY_USD") 0;
    }
