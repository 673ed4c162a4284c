-- ===== src/Router/State.antt =====
-- `LLMRouter` of core/router.py: its fields, the switches on routes, the cache of their health, and the
-- circuit breaker. `RuntimeManager` is of core/runtime.py. An instant is one of the monotonic clock.
use gestalt_workframe.Prelude.{
  ℕ, ◌+◌, ◌-◌, String, Bool, true, false, not, ◌&&◌, ◌||◌, Option, none, some, List, [], ◌∷◌, ◌++◌,
  ◌==◌, text_key, leb, nat_eq, or_default, if◌then◌else◌, select,
}
use gestalt_workframe.Prelude.Int.{ℤ, pos, pos_part, neg_part, sub_ℕ}
use gestalt_workframe.Prelude.Assoc.{Assoc, get, put, delete}
use gestalt_workframe.Router.Routes.{
  Words, ProviderRoute, is_listed, is_cloud, is_provided_by, has_provider,
}
use gestalt_workframe.Router.Slots.{GenerationConcurrencyPolicy, Active}

-- What is known of a provider's health, without the lists and times that are only shown.
pub record Health : Type 0 where
  pub endpoint_healthy : Bool
  pub model_available : Bool
  pub checked : Bool

pub record RuntimeControlPolicy : Type 0 where
  pub warm_route_bonus : ℤ
  pub unavailable_penalty : ℤ

pub record LlmRouter : Type 0 where
  pub primary : ℕ
  pub error_threshold : ℕ
  pub routes : List ProviderRoute
  pub error_count : ℕ
  pub breaker_open : Bool
  pub route_error_count : Assoc String ℕ
  pub route_breaker_open : List String
  pub route_overrides : Assoc String Bool
  pub health_cache_ttl : ℕ
  pub health_cache : Assoc String (ℕ × Health)
  pub synthesized_routes : Assoc String ProviderRoute
  pub routing_strategy : String
  pub runtime_manager : Option RuntimeControlPolicy
  pub concurrency : GenerationConcurrencyPolicy
  pub active : Active

values : Assoc String ProviderRoute → List ProviderRoute
values [] = []
values ((k, v) ∷ m) = v ∷ values m

unfoldable pub all_routes : LlmRouter → List ProviderRoute
unfolding values
all_routes r = r.routes ++ values r.synthesized_routes

unfoldable pub route_key : Words → ProviderRoute → String
route_key w route =
    if route.name == ""
    then w.join route.provider_type (w.join ":" (w.join route.model (w.join ":" route.role)))
    else route.name

-- `next((item for item in routes if item.name == name), None)`
unfoldable pub route_named : String → List ProviderRoute → Option ProviderRoute
route_named name [] = none
route_named name (x ∷ xs) = if x.name == name then some x else route_named name xs

enabled_in : Option Bool → Option ProviderRoute → Bool
enabled_in (some override) none = override
enabled_in (some override) (some route) =
    if route.deployment_status == "disabled" then false else override
enabled_in none none = true
enabled_in none (some route) =
    if route.deployment_status == "disabled" then false else route.enabled_by_default

unfoldable pub route_enabled : LlmRouter → String → Bool
unfolding enabled_in
route_enabled r name = enabled_in (get name r.route_overrides) (route_named name (all_routes r))

forget_health : Words → Option ProviderRoute → LlmRouter → LlmRouter
forget_health w none r = r
forget_health w (some route) r = record r {
  health_cache = delete (route_key w route) r.health_cache;
}

unfoldable pub set_route_enabled : Words → String → Bool → LlmRouter → LlmRouter
unfolding forget_health
set_route_enabled w name enabled r =
    let r' = record r { route_overrides = put name enabled r.route_overrides } in
    forget_health w (route_named name (all_routes r')) r'

abbrev pub routing_strategies : List String
routing_strategies =
    "best_value" ∷ "prefer_local" ∷ "prefer_cloud_quality" ∷ "local_only" ∷ "cloud_only" ∷ []

-- `_clean_routing_strategy`
unfoldable pub clean_routing_strategy : Words → Option String → String
clean_routing_strategy w s =
    let given = or_default s "" in
    let value = w.lower (w.strip (if given == "" then "best_value" else given)) in
    if is_listed value routing_strategies then value else "best_value"

-- none where the code raises ValueError
unfoldable pub set_routing_strategy : Words → Option String → LlmRouter → Option LlmRouter
set_routing_strategy w s r =
    let value = w.lower (w.strip (or_default s "")) in
    if is_listed value routing_strategies
    then some (record r { routing_strategy = value })
    else none

fresh : ℕ → ℕ → Option (ℕ × Health) → Option Health
fresh ttl now none = none
fresh ttl now (some (at, h)) = if not (nat_eq ttl 0) && leb (now - at) ttl then some h else none

-- `_cached_provider_health`
unfoldable pub cached_provider_health : Words → ℕ → LlmRouter → ProviderRoute → Option Health
unfolding fresh
cached_provider_health w now r route =
    fresh r.health_cache_ttl now (get (route_key w route) r.health_cache)

-- What a provider says of its health: a status with both entries, else `is_healthy()`, or an exception.
pub data Probe : Type 0 where
  health_status : (endpoint_healthy model_available : Bool) → Probe
  is_healthy : Bool → Probe
  probe_raises : Probe

unfoldable pub probed : Probe → Health
probed (health_status e m) = record { endpoint_healthy = e; model_available = m; checked = true }
probed (is_healthy h) = record { endpoint_healthy = h; model_available = h; checked = true }
probed probe_raises = record { endpoint_healthy = false; model_available = false; checked = true }

known_health : Words → ℕ → Probe → ProviderRoute → LlmRouter → Option Health → Health × LlmRouter
known_health w now p route r (some h) = (h, r)
known_health w now p route r none =
    (probed p, record r { health_cache = put (route_key w route) (now, probed p) r.health_cache })

-- `_provider_health`, with no forced refresh
unfoldable pub provider_health : Words → ℕ → Probe → ProviderRoute → LlmRouter → Health × LlmRouter
unfolding known_health
provider_health w now p route r =
    known_health w now p route r (cached_provider_health w now r route)

-- `_local_route_callable`
unfoldable pub local_route_callable :
    Words → ℕ → Probe → ProviderRoute → LlmRouter → Bool × LlmRouter
local_route_callable w now p route r =
    let (h, r') = provider_health w now p route r in
    if is_cloud route || not (has_provider route) then (true, r) else (h.model_available, r')

negated : ℤ → ℤ
negated n = sub_ℕ (neg_part n) (pos_part n)

-- `RuntimeManager.score_adjustment`
unfoldable pub score_adjustment : RuntimeControlPolicy → ProviderRoute → Option Health → ℤ
unfolding negated
score_adjustment p route none = pos 0
score_adjustment p route (some h) =
    if is_cloud route || not h.checked
    then pos 0
    else if h.model_available
    then p.warm_route_bonus
    else negated p.unavailable_penalty

-- `RuntimeManager.selection_blocked_reason`
unfoldable pub runtime_blocked_reason : ProviderRoute → Option Health → Bool → String
runtime_blocked_reason route none enabled = ""
runtime_blocked_reason route (some h) enabled =
    if is_cloud route || not enabled || not h.checked
    then ""
    else if h.model_available
    then ""
    else if not h.endpoint_healthy
    then "runtime_unreachable"
    else "runtime_model_not_warm"

-- `self._route_error_count.get(key, 0)`
unfoldable pub errors_of : String → LlmRouter → ℕ
errors_of key r = or_default (get key r.route_error_count) 0

-- `_record_route_failure`, with `_trip_breaker`
unfoldable pub record_route_failure : Words → ProviderRoute → LlmRouter → LlmRouter
record_route_failure w route r =
    let key = route_key w route in
    let errors = errors_of key r + 1 in
    let counted = record r {
      error_count = r.error_count + 1;
      route_error_count = put key errors r.route_error_count;
    } in
    if leb r.error_threshold errors
    then record counted {
      route_breaker_open = key ∷ r.route_breaker_open;
      breaker_open = is_provided_by r.primary route || r.breaker_open;
    }
    else counted

-- the loop of `_reset_breaker_if_healthy`
unfoldable pub close_routes : Words → List ProviderRoute → LlmRouter → LlmRouter
close_routes w [] r = r
close_routes w (x ∷ xs) r =
    let key = route_key w x in
    let closed = record r {
      route_breaker_open = select (λ k. not (k == key)) r.route_breaker_open;
      route_error_count = put key 0 r.route_error_count;
    } in
    close_routes w xs (if is_provided_by r.primary x then closed else r)

-- `_reset_breaker_if_healthy`, for what the primary provider's `is_healthy()` answers
unfoldable pub reset_breaker_if_healthy : Words → Bool → LlmRouter → LlmRouter
reset_breaker_if_healthy w healthy r =
    if r.breaker_open && healthy
    then close_routes w r.routes (record r { breaker_open = false; error_count = 0 })
    else r
