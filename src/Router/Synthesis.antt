-- ===== src/Router/Synthesis.antt =====
-- The routes that core/router.py builds from the catalog. A price of the catalog is a number of
-- 10^-12 USD for a token, which is 10^-6 USD for a million, and an index is one of thousandths of a
-- point.
use gestalt_workframe.Prelude.{
  ℕ, String, Bool, true, not, ◌||◌, Option, none, some, List, [], ◌∷◌, map, ◌==◌, text_key, ltb,
  leb, or_default, if◌then◌else◌, select, any,
}
use gestalt_workframe.Prelude.Int.{pos, pos_part, ltb_ℤ}
use gestalt_workframe.Prelude.Assoc.{Assoc, get, put}
use gestalt_workframe.Resolver.Catalog.{
  Python, CatalogModel, Lane, supports, is_batch_tier, is_router_pseudo_model,
}
use gestalt_workframe.Resolver.Screen.{Candidate}
use gestalt_workframe.Resolver.Order.{Resolution}
use gestalt_workframe.Router.Routes.{
  Words, ProviderRoute, is_listed, is_cloud, is_free_tier_model, task_matches,
}
use gestalt_workframe.Router.State.{LlmRouter}
use gestalt_workframe.Router.Transport.{TransportMap, catalog_id}

-- What a call finds around it: Python's library, the text of the switch after `strip().lower()`, the
-- lanes that are loaded, with `lanes["guide"]` apart, the cached catalog, the measured latencies and the
-- time that `resolve_lane` uses, the transports, the key of the aggregator, and the identity of the
-- provider that is built for a model.
pub record Deployment : Type 0 where
  pub words : Words
  pub python : Python
  pub capability_flag : String
  pub lanes : Assoc String Lane
  pub guide : Lane
  pub catalog : List CatalogModel
  pub latencies : String → Option ℕ
  pub utc_now : ℕ
  pub transports : TransportMap
  pub openrouter_key : String
  pub built_object : String → ℕ

-- `_catalog_cost_tier`: more than 5 USD for a million tokens is premium
unfoldable pub catalog_cost_tier : CatalogModel → String
catalog_cost_tier m = if ltb_ℤ (pos 5000000) m.completion_price then "premium" else "low_cost"

-- `SYNTHESIZED_RESPONSE_POLICIES` of the tier
unfoldable pub synthesized_policies : CatalogModel → List String
synthesized_policies m =
    if ltb_ℤ (pos 5000000) m.completion_price
    then "local_then_claude_if_high_value" ∷ []
    else "local_then_low_cost" ∷ "local_then_claude_if_high_value" ∷ []

unfoldable pub synthesized_tool_quality : CatalogModel → String
synthesized_tool_quality m =
    if leb 44400 (or_default m.agentic_index 0)
    then "strong"
    else if supports m "tools"
    then "ok"
    else "none"

-- The route that `_synthesized_base_route` builds. A price below 0 is no price.
unfoldable pub new_route : Deployment → CatalogModel → ProviderRoute
new_route d m = record {
  name = d.words.join "catalog:" m.id;
  provider = some record {
    object = d.built_object m.id;
    class_name = "OpenAICompatibleProvider";
    max_tokens = some (pos 4096);
  };
  provider_type = "openrouter";
  model = m.id;
  role = "secondary";
  cost_tier = catalog_cost_tier m;
  allowed_response_policies = synthesized_policies m;
  recommended_for = [];
  avoid_for = [];
  routing_priority = pos 0;
  configured = true;
  blocked_reason = "";
  deployment_status = "active";
  runtime_group = "openrouter";
  enabled_by_default = true;
  capabilities = "chat" ∷ "rag_answering" ∷ (if supports m "tools" then "tools" ∷ [] else []);
  tool_calling_quality = synthesized_tool_quality m;
  input_price_usd_per_million = pos_part m.prompt_price;
  output_price_usd_per_million = pos_part m.completion_price;
  provider_budget_id = "openrouter";
  preferred_provider_id = "";
  catalog_derived = true;
}

base_route :
    Deployment → CatalogModel → LlmRouter → Option ProviderRoute → Option ProviderRoute × LlmRouter
base_route d m r (some cached) = (some cached, r)
base_route d m r none = if d.openrouter_key == "" then (none, r) else (
  some (new_route d m),
  record r { synthesized_routes = put m.id (new_route d m) r.synthesized_routes },
)

-- `_synthesized_base_route`
unfoldable pub synthesized_base_route :
    Deployment → CatalogModel → LlmRouter → Option ProviderRoute × LlmRouter
unfolding base_route
synthesized_base_route d m r = base_route d m r (get m.id r.synthesized_routes)

-- `replace(base, ...)` with what the catalog says now
unfoldable pub repriced : List String → CatalogModel → ProviderRoute → ProviderRoute
repriced recommended m base = record base {
  cost_tier = catalog_cost_tier m;
  allowed_response_policies = synthesized_policies m;
  input_price_usd_per_million = pos_part m.prompt_price;
  output_price_usd_per_million = pos_part m.completion_price;
  recommended_for = recommended;
}

-- the candidates that the loop of `_synthesize_cloud_routes` skips
unfoldable pub is_not_synthesized : Deployment → List String → Candidate → Bool
is_not_synthesized d configured_ids c =
    is_listed c.model.id configured_ids
    || is_free_tier_model d.words c.model.id
    || is_batch_tier d.python c.model
    || is_router_pseudo_model d.python c.model
    || not (ltb 0 c.cost_per_turn_usd)

-- the rest of one round, on its route and on what the rest of the loop gives; none is `return []`
unfoldable pub add_route :
    List String
    → CatalogModel
    → Option ProviderRoute
    → Option (List ProviderRoute) × LlmRouter
    → Option (List ProviderRoute)
add_route recommended m none rest = none
add_route recommended m (some base) (none, r) = none
add_route recommended m (some base) (some routes, r) = some (repriced recommended m base ∷ routes)

unfoldable pub synthesize_loop :
    Deployment
    → List String
    → List String
    → List Candidate
    → LlmRouter
    → Option (List ProviderRoute) × LlmRouter
unfolding add_route
synthesize_loop d ids recommended [] r = (some [], r)
synthesize_loop d ids recommended (c ∷ cs) r =
    let skipped = synthesize_loop d ids recommended cs r in
    let (base, r') = synthesized_base_route d c.model r in
    let rest = synthesize_loop d ids recommended cs r' in
    if is_not_synthesized d ids c
    then skipped
    else (add_route recommended c.model base rest, rest.1)

task_tag : Option String → List String
task_tag none = []
task_tag (some task) = if task == "" then [] else task ∷ []

-- `_synthesize_cloud_routes`
unfoldable pub synthesize_cloud_routes :
    Deployment
    → Resolution
    → List ProviderRoute
    → Option String
    → LlmRouter
    → List ProviderRoute × LlmRouter
unfolding task_tag
synthesize_cloud_routes d resolution configured_cloud task r =
    let ids = map (λ x. catalog_id d.words d.transports x.model) (select is_cloud r.routes) in
    let claims = any (λ x. task_matches d.words task x.recommended_for) configured_cloud in
    let recommended = if claims then task_tag task else [] in
    let (routes, r') = synthesize_loop d ids recommended resolution.candidates r in
    (or_default routes [], r')
