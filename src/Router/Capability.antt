-- ===== src/Router/Capability.antt =====
-- The order of cloud routes by what a turn's lane asks of the catalog: `_capability_order` of
-- core/router.py, and what it reads.
use gestalt_workframe.Prelude.{
  ℕ, ◌+◌, String, Bool, true, false, not, ◌&&◌, ◌||◌, Option, none, some, List, [], ◌∷◌, ◌++◌, map,
  ◌==◌, text_key, ltb, leb, nat_eq, or_default, if◌then◌else◌, select, any,
}
use gestalt_workframe.Prelude.Assoc.{Assoc, get}
use gestalt_workframe.Prelude.Sort.{sort_by}
use gestalt_workframe.Resolver.Catalog.{Lane}
use gestalt_workframe.Resolver.Screen.{Candidate}
use gestalt_workframe.Resolver.Order.{Tier, tier_of, resolve_lane, Resolution}
use gestalt_workframe.Router.Routes.{Words, ProviderRoute, is_listed, is_cloud}
use gestalt_workframe.Router.State.{LlmRouter, route_key, errors_of, clean_routing_strategy}
use gestalt_workframe.Router.Transport.{catalog_id, transport_kind}
use gestalt_workframe.Router.Synthesis.{Deployment, synthesize_cloud_routes}

unfoldable pub capability_routing_enabled : Deployment → Bool
capability_routing_enabled d = not (is_listed d.capability_flag ("0" ∷ "false" ∷ "no" ∷ "off" ∷ []))

-- `TASK_LANES.get(task, DEFAULT_LANE)`
unfoldable pub task_lane : String → String
task_lane task =
    if is_listed task
      ("code_review" ∷ "critical_code_review" ∷ "deep_code_review" ∷ "security_review" ∷ [])
    then "review"
    else if is_listed task ("coding" ∷ "implementation_help" ∷ "large_refactor" ∷ [])
    then "build"
    else if is_listed task ("classification" ∷ "routine_chat" ∷ "basic_rewst_help" ∷ [])
    then "lookup"
    else "guide"

unfoldable pub lane_for : Deployment → Option String → Lane
lane_for d task = or_default (get (task_lane (d.words.strip (or_default task ""))) d.lanes) d.guide

-- `STRATEGY_TIERS`
unfoldable pub strategy_tier : String → Tier
strategy_tier strategy = if strategy == "prefer_cloud_quality" then tier_of "best" else Tier.auto

-- The breaker of the route is open, or it has as many errors as would open it.
unfoldable pub is_failing : Words → LlmRouter → ProviderRoute → Bool
is_failing w r x =
    is_listed (route_key w x) r.route_breaker_open
    || leb r.error_threshold (errors_of (route_key w x) r)

cached_routes : Assoc String ProviderRoute → List ProviderRoute
cached_routes [] = []
cached_routes ((k, v) ∷ m) = v ∷ cached_routes m

unfoldable pub benched : Deployment → List ProviderRoute → LlmRouter → List String
unfolding cached_routes
benched d cloud r =
    map (λ x. catalog_id d.words d.transports x.model)
      (select (is_failing d.words r) (cloud ++ select is_cloud r.routes))
    ++ map (λ x. x.model) (select (is_failing d.words r) (cached_routes r.synthesized_routes))

-- `rank.get(id)`, counted from a position: of two candidates with one id the later counts
unfoldable pub rank_of : String → ℕ → List Candidate → Option ℕ
rank_of id i [] = none
rank_of id i (c ∷ cs) = elim (rank_of id (i + 1) cs) [
  | some j ↦ some j
  | none ↦ if c.model.id == id then some i else none
]

is_some : Option ℕ → Bool
is_some none = false
is_some (some n) = true

-- The comparison of pairs of numbers.
pair_leb : ℕ × ℕ → ℕ × ℕ → Bool
pair_leb (a, b) (c, d) = ltb a c || nat_eq a c && leb b d

unfoldable pub is_ranked : Deployment → Resolution → ProviderRoute → Bool
unfolding is_some
is_ranked d resolution x =
    is_some (rank_of (catalog_id d.words d.transports x.model) 0 resolution.candidates)

-- the key by which the routes that cleared the lane are sorted
unfoldable pub cleared_key : Deployment → Resolution → ProviderRoute → ℕ × ℕ
cleared_key d resolution x = (
  or_default (rank_of (catalog_id d.words d.transports x.model) 0 resolution.candidates) 0,
  transport_kind d.words d.transports x.model,
)

-- and the key of the others
unfoldable pub unlisted_key : Deployment → ProviderRoute → ℕ × ℕ
unlisted_key d x = (
  if any (λ m. m.id == catalog_id d.words d.transports x.model) d.catalog then 0 else 1,
  transport_kind d.words d.transports x.model,
)

unfoldable pub lane_order : Deployment → Resolution → List ProviderRoute → List ProviderRoute
unfolding pair_leb
lane_order d resolution candidates =
    sort_by (λ a b. pair_leb (cleared_key d resolution a) (cleared_key d resolution b))
      (select (is_ranked d resolution) candidates)
    ++ sort_by (λ a b. pair_leb (unlisted_key d a) (unlisted_key d b))
        (select (λ x. not (is_ranked d resolution x)) candidates)

unfoldable pub turn_resolution :
    Deployment → List ProviderRoute → Option String → LlmRouter → Resolution
turn_resolution d cloud task r =
    resolve_lane d.python d.utc_now (benched d cloud r) d.latencies
      (strategy_tier (clean_routing_strategy d.words (some r.routing_strategy))) (lane_for d task)
      d.catalog

-- `_capability_order`, with the gate as an argument. The code returns its own argument where nothing is
-- left, which is where there was no route to begin with.
unfoldable pub capability_order :
    Deployment
    → (LlmRouter → ProviderRoute → Bool)
    → List ProviderRoute
    → Option String
    → LlmRouter
    → List ProviderRoute × LlmRouter
capability_order d gate cloud task r =
    let resolution = turn_resolution d cloud task r in
    let (synthesized, r') = synthesize_cloud_routes d resolution cloud task r in
    (lane_order d resolution (cloud ++ select (gate r') synthesized), r')
