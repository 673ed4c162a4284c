-- ===== src/Router/Gate.antt =====
-- Why `LLMRouter` of core/router.py does not take a route: the checks of policy, strategy and health.
-- A reason is the code's text, and the empty text stands for none.
use gestalt_workframe.Prelude.{
  ℕ, String, Bool, true, false, not, ◌&&◌, ◌||◌, Option, none, some, List, ◌==◌, text_key,
  if◌then◌else◌,
}
use gestalt_workframe.Prelude.Assoc.{get}
use gestalt_workframe.Router.Routes.{
  Words, ProviderRoute, is_listed, is_free_tier_route, is_cloud, reliable_tool_calling,
  is_provided_by, has_provider,
}
use gestalt_workframe.Router.State.{
  Health, RuntimeControlPolicy, LlmRouter, route_key, route_enabled, cached_provider_health,
  runtime_blocked_reason,
}

-- The arguments of `chat` and `stream_chat`: `text_length` is the length of the messages' texts joined
-- by blanks, and `wants_tools` is `bool(tools)`.
pub record Turn : Type 0 where
  pub text_length : ℕ
  pub wants_tools : Bool
  pub force_secondary : Bool
  pub cloud_allowed : Bool
  pub response_policy : Option String
  pub task : Option String
  pub session_id : Option String
  pub context_cloud_eligible : Bool

-- `response_policy is None or response_policy in route.allowed_response_policies`
unfoldable pub is_policy_met : Option String → ProviderRoute → Bool
is_policy_met none route = true
is_policy_met (some p) route = is_listed p route.allowed_response_policies

-- `enabled_cost_tiers is None or route.cost_tier in enabled_cost_tiers`
unfoldable pub is_tier_enabled : Option (List String) → ProviderRoute → Bool
is_tier_enabled none route = true
is_tier_enabled (some tiers) route = is_listed route.cost_tier tiers

-- `reason or default`
unfoldable pub reason_or : String → String → String
reason_or reason default = if reason == "" then default else reason

-- `_route_allowed`
unfoldable pub route_allowed :
    Words → LlmRouter → Bool → Option String → Option (List String) → ProviderRoute → Bool
route_allowed w r cloud_allowed policy tiers route =
    if is_free_tier_route w route
    then false
    else if route.deployment_status == "disabled"
    then false
    else if not route.configured || not (has_provider route)
    then false
    else if not (route_enabled r route.name)
    then false
    else if not (is_cloud route)
    then true
    else if not cloud_allowed
    then false
    else if not (is_tier_enabled tiers route)
    then false
    else is_policy_met policy route

-- `_route_temporarily_blocked`
unfoldable pub route_temporarily_blocked : Words → LlmRouter → ProviderRoute → Bool
route_temporarily_blocked w r route =
    is_listed (route_key w route) r.route_breaker_open
    || r.breaker_open && is_provided_by r.primary route

is_unset : Option Bool → Bool
is_unset none = true
is_unset (some b) = false

-- why a route that is not enabled is not
unfoldable pub disabled_reason : LlmRouter → ProviderRoute → String
unfolding is_unset
disabled_reason r route =
    if route.deployment_status == "candidate" && is_unset (get route.name r.route_overrides)
    then "candidate_not_enabled"
    else "route_disabled"

-- `_policy_blocked_reason`
unfoldable pub policy_blocked_reason : LlmRouter → Bool → Option String → ProviderRoute → String
policy_blocked_reason r cloud_allowed policy route =
    if route.deployment_status == "disabled"
    then "deployment_disabled"
    else if not route.configured
    then reason_or route.blocked_reason "not_configured"
    else if not (has_provider route)
    then reason_or route.blocked_reason "provider_not_built"
    else if not (route_enabled r route.name)
    then disabled_reason r route
    else if is_cloud route && not cloud_allowed
    then "cloud_policy_not_enabled"
    else if is_cloud route && not (is_policy_met policy route)
    then "not_allowed_for_response_policy"
    else "policy_blocked"

managed_reason : Option RuntimeControlPolicy → String → String
managed_reason none reason = ""
managed_reason (some p) reason = reason

-- `_runtime_selection_blocked_reason`
unfoldable pub runtime_selection_blocked_reason : Words → ℕ → LlmRouter → ProviderRoute → String
unfolding managed_reason
runtime_selection_blocked_reason w now r route = managed_reason r.runtime_manager (
    runtime_blocked_reason route (cached_provider_health w now r route)
      (route_enabled r route.name))

-- `_selection_blocked_reason`
unfoldable pub selection_blocked_reason : Words → ℕ → Turn → LlmRouter → ProviderRoute → String
selection_blocked_reason w now t r route =
    if is_free_tier_route w route
    then "free_tier_excluded"
    else if r.routing_strategy == "local_only" && is_cloud route
    then "strategy_local_only"
    else if t.wants_tools && not (reliable_tool_calling w route)
    then "tool_calling_not_supported"
    else if r.routing_strategy == "cloud_only" && not (is_cloud route)
    then "strategy_cloud_only"
    else if t.force_secondary && not (is_cloud route)
    then "force_secondary"
    else if is_cloud route && not t.context_cloud_eligible
    then "context_cloud_ineligible"
    else if route_temporarily_blocked w r route
    then "circuit_breaker_open"
    else if not (route_allowed w r t.cloud_allowed t.response_policy none route)
    then policy_blocked_reason r t.cloud_allowed t.response_policy route
    else runtime_selection_blocked_reason w now r route

-- `if not blocked_reason`
unfoldable pub is_selectable : Words → ℕ → Turn → LlmRouter → ProviderRoute → Bool
is_selectable w now t r route = selection_blocked_reason w now t r route == ""

-- `_route_blocked_reason`, of the panel
unfoldable pub route_blocked_reason :
    Words
    → LlmRouter
    → Health
    → Bool
    → Option String
    → Option (List String)
    → ProviderRoute
    → String
route_blocked_reason w r h cloud_allowed policy tiers route =
    if is_free_tier_route w route
    then "free_tier_excluded"
    else if route.deployment_status == "disabled"
    then "deployment_disabled"
    else if not route.configured
    then reason_or route.blocked_reason "not_configured"
    else if not (has_provider route)
    then reason_or route.blocked_reason "provider_not_built"
    else if not (route_enabled r route.name)
    then disabled_reason r route
    else if not h.checked
    then "health_not_checked"
    else if not h.endpoint_healthy
    then "health_check_failed"
    else if not h.model_available
    then "model_not_available"
    else if route_temporarily_blocked w r route
    then "circuit_breaker_open"
    else if is_cloud route && not cloud_allowed
    then "cloud_policy_not_enabled"
    else if is_cloud route && not (is_tier_enabled tiers route)
    then "cloud_tier_disabled"
    else if is_cloud route && not (is_policy_met policy route)
    then "not_allowed_for_response_policy"
    else ""

-- `callable` of `provider_statuses`
unfoldable pub callable_now :
    Words → LlmRouter → Health → Bool → Option String → Option (List String) → ProviderRoute → Bool
callable_now w r h cloud_allowed policy tiers route =
    h.model_available
    && route_allowed w r cloud_allowed policy tiers route
    && not (route_temporarily_blocked w r route)
