-- ===== src/Router/Order.antt =====
-- The score of a route and the order in which `LLMRouter` of core/router.py tries routes. The points
-- of a budget's headroom are an argument.
use gestalt_workframe.Prelude.{
  ℕ, String, not, ◌&&◌, Option, none, some, List, [], ◌∷◌, ◌++◌, map, ◌==◌, text_key, or_default,
  if◌then◌else◌, select,
}
use gestalt_workframe.Prelude.Int.{ℤ, pos, negsuc, ◌+ℤ◌, ltb_ℤ}
use gestalt_workframe.Prelude.Assoc.{Assoc, get, put}
use gestalt_workframe.Prelude.Sort.{sort_by}
use gestalt_workframe.Router.Routes.{
  Words, ProviderRoute, is_cloud, reliable_tool_calling, task_matches,
}
use gestalt_workframe.Router.State.{
  LlmRouter, RuntimeControlPolicy, Health, clean_routing_strategy, cached_provider_health,
  score_adjustment,
}
use gestalt_workframe.Router.Gate.{Turn, is_selectable}
use gestalt_workframe.Router.Synthesis.{Deployment}
use gestalt_workframe.Router.Capability.{capability_routing_enabled, capability_order}

-- `ROUTE_COST_ADJUSTMENTS[strategy].get(cost_tier, 0)`
unfoldable pub cost_adjustment : String → String → ℕ
cost_adjustment strategy tier =
    if strategy == "best_value"
    then (if tier == "local" then 120 else if tier == "low_cost" then 40 else 0)
    else if strategy == "prefer_local"
    then (if tier == "local" then 300 else if tier == "low_cost" then 75 else 0)
    else if strategy == "prefer_cloud_quality"
    then (if tier == "low_cost" then 250 else if tier == "premium" then 300 else 0)
    else 0

unfoldable pub tool_bonus : Words → ProviderRoute → ℕ
tool_bonus w route =
    if not (reliable_tool_calling w route)
    then 0
    else if route.tool_calling_quality == "ok"
    then 100
    else if route.tool_calling_quality == "strong"
    then 250
    else 0

managed_score : Option RuntimeControlPolicy → ProviderRoute → Option Health → ℤ
managed_score none route h = pos 0
managed_score (some p) route h = score_adjustment p route h

unfoldable pub headroom_bonus : (String → ℕ) → ProviderRoute → ℕ
headroom_bonus headroom route =
    if not (route.preferred_provider_id == "")
      && (route.preferred_provider_id == route.provider_budget_id)
    then headroom route.preferred_provider_id
    else 0

-- `_route_score`, for the strategy of the router
unfoldable pub route_score :
    Words → (String → ℕ) → ℕ → Option String → Assoc String ℤ → LlmRouter → ProviderRoute → ℤ
unfolding managed_score
route_score w headroom now task capability_priority r route =
    let strategy = clean_routing_strategy w (some r.routing_strategy) in
    or_default (get route.name capability_priority) route.routing_priority
    +ℤ pos (cost_adjustment strategy route.cost_tier)
    +ℤ (if task_matches w task route.recommended_for then pos 1000 else pos 0)
    +ℤ (if task_matches w task route.avoid_for then negsuc 1999 else pos 0)
    +ℤ pos (tool_bonus w route)
    +ℤ managed_score r.runtime_manager route (cached_provider_health w now r route)
    +ℤ pos (headroom_bonus headroom route)

-- `sorted(routes, key=score, reverse=True)`, which is stable
unfoldable pub by_score : (ProviderRoute → ℤ) → List ProviderRoute → List ProviderRoute
by_score score = sort_by (λ a b. not (ltb_ℤ (score a) (score b)))

-- the priorities of the cloud family, the highest first
unfoldable pub anchors : List ProviderRoute → List ProviderRoute → List ℤ
anchors cloud reordered =
    sort_by (λ a b. not (ltb_ℤ a b))
      (map (λ x. x.routing_priority) cloud
        ++ map (λ x. x.routing_priority) (select (λ x. x.catalog_derived) reordered))

-- the dictionary that deals the priorities out to the routes, 0 where none is left
unfoldable pub dealt : List ℤ → List ProviderRoute → Assoc String ℤ → Assoc String ℤ
dealt zs [] m = m
dealt [] (x ∷ xs) m = dealt [] xs (put x.name (pos 0) m)
dealt (z ∷ zs) (x ∷ xs) m = dealt zs xs (put x.name z m)

-- the end of `_ordered_routes`: the two families, and all routes in the order that breaks ties
unfoldable pub ordered_by :
    String
    → (ProviderRoute → ℤ)
    → List ProviderRoute
    → List ProviderRoute
    → List ProviderRoute
    → List ProviderRoute
ordered_by strategy score local cloud routes =
    if strategy == "prefer_local"
    then by_score score local ++ by_score score cloud
    else if strategy == "prefer_cloud_quality"
    then by_score score cloud ++ by_score score local
    else by_score score routes

-- `_ordered_routes`
unfoldable pub ordered_routes :
    Deployment → (String → ℕ) → ℕ → Turn → LlmRouter → List ProviderRoute × LlmRouter
ordered_routes d headroom now t r =
    let w = d.words in
    let routes = select (is_selectable w now t r) r.routes in
    let local = select (λ x. not (is_cloud x)) routes in
    let cloud = select is_cloud routes in
    let (reordered, r') = capability_order d (is_selectable w now t) cloud t.task r in
    let priority = dealt (anchors cloud reordered) reordered [] in
    if capability_routing_enabled d
    then (
      ordered_by r.routing_strategy (route_score w headroom now t.task priority r') local reordered
          (local ++ reordered),
      r',
    )
    else (
      ordered_by r.routing_strategy (route_score w headroom now t.task [] r) local cloud routes,
      r,
    )
