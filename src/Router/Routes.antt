-- ===== src/Router/Routes.antt =====
-- `ProviderRoute` of core/router.py, and the texts that it compares. A price is a number of 10^-6 USD
-- for a million tokens.
use gestalt_workframe.Prelude.{
  ℕ, String, Bool, false, not, ◌&&◌, ◌||◌, Option, none, some, List, [], ◌∷◌, map, ◌==◌, text_key,
  any, nat_eq, if◌then◌else◌,
}
use gestalt_workframe.Prelude.Int.{ℤ}

-- What the router asks of Python's texts: `s.strip()`, `s.lower()`, `s.split(":")`, `a + b`, and what
-- follows a prefix, none where the text does not start with it.
pub record Words : Type 0 where
  pub strip : String → String
  pub lower : String → String
  pub split : String → List String
  pub join : String → String → String
  pub after_prefix : String → String → Option String

-- A provider: its identity, for `is`, the name of its class, and `int(params.max_tokens)`, none where
-- there is no such number.
pub record LlmProvider : Type 0 where
  pub object : ℕ
  pub class_name : String
  pub max_tokens : Option ℤ

pub record ProviderRoute : Type 0 where
  pub name : String
  pub provider : Option LlmProvider
  pub provider_type : String
  pub model : String
  pub role : String
  pub cost_tier : String
  pub allowed_response_policies : List String
  pub recommended_for : List String
  pub avoid_for : List String
  pub routing_priority : ℤ
  pub configured : Bool
  pub blocked_reason : String
  pub deployment_status : String
  pub runtime_group : String
  pub enabled_by_default : Bool
  pub capabilities : List String
  pub tool_calling_quality : String
  pub input_price_usd_per_million : ℕ
  pub output_price_usd_per_million : ℕ
  pub provider_budget_id : String
  pub preferred_provider_id : String
  pub catalog_derived : Bool

-- `s in texts`
unfoldable pub is_listed : String → List String → Bool
is_listed s = any (λ t. t == s)

later_segments : List String → List String
later_segments [] = []
later_segments (s ∷ ss) = ss

unfoldable pub is_free_tier_model : Words → String → Bool
unfolding later_segments
is_free_tier_model w id =
    any (λ s. s == "free" || s == "free-tier") (later_segments (w.split (w.lower (w.strip id))))

unfoldable pub is_free_tier_route : Words → ProviderRoute → Bool
is_free_tier_route w route = is_free_tier_model w route.model

unfoldable pub is_cloud : ProviderRoute → Bool
is_cloud route = not (route.cost_tier == "local")

unfoldable pub is_metered : ProviderRoute → Bool
is_metered route = route.cost_tier == "low_cost" || route.cost_tier == "premium"

unfoldable pub supports_tools : Words → ProviderRoute → Bool
supports_tools w route = is_listed "tools" (map (λ c. w.lower (w.strip c)) route.capabilities)

unfoldable pub reliable_tool_calling : Words → ProviderRoute → Bool
reliable_tool_calling w route =
    supports_tools w route
    && (route.tool_calling_quality == "ok" || route.tool_calling_quality == "strong")

-- `_task_matches`
unfoldable pub task_matches : Words → Option String → List String → Bool
task_matches w none tags = false
task_matches w (some task) tags =
    not (task == "") && is_listed (w.lower (w.strip task)) (map (λ t. w.lower (w.strip t)) tags)

unfoldable pub has_provider : ProviderRoute → Bool
has_provider route = elim route.provider [ none ↦ false | some p ↦ not false ]

-- `route.provider is self.primary`, for the identity of the primary provider
unfoldable pub is_provided_by : ℕ → ProviderRoute → Bool
is_provided_by object route = elim route.provider [ none ↦ false | some p ↦ nat_eq p.object object ]

-- `price or None`
unfoldable pub price_given : ℕ → Option ℕ
price_given price = if nat_eq price 0 then none else some price
