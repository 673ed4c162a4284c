-- ===== src/Router/Tests/Outage.antt =====
-- Runs of `chat` of core/router.py while the local model is down.
use gestalt_workframe.Prelude.{◌≡◌, refl, false, some, [], text_key}
use gestalt_workframe.Prelude.Assoc.{get, put}
use gestalt_workframe.Prelude.Sort.{sort_by}
use gestalt_workframe.Budget.Clock.{plain_calendar}
use gestalt_workframe.Budget.Database.{usd_since}
use gestalt_workframe.Budget.Tests.{gate, fresh}
use gestalt_workframe.Router.Routes.{
  is_listed, is_free_tier_model, is_free_tier_route, is_cloud, supports_tools,
  reliable_tool_calling, task_matches, has_provider, is_provided_by, price_given,
}
use gestalt_workframe.Router.Slots.{can_start, started, finished}
use gestalt_workframe.Router.State.{
  all_routes, route_key, route_named, route_enabled, clean_routing_strategy, cached_provider_health,
  probed, provider_health, local_route_callable, score_adjustment, runtime_blocked_reason,
  errors_of, record_route_failure, close_routes, reset_breaker_if_healthy,
}
use gestalt_workframe.Router.Gate.{
  is_policy_met, is_tier_enabled, reason_or, route_allowed, route_temporarily_blocked,
  disabled_reason, policy_blocked_reason, runtime_selection_blocked_reason,
  selection_blocked_reason, is_selectable,
}
use gestalt_workframe.Router.Transport.{alias_to_catalog, after_gateway, catalog_id, transport_kind}
use gestalt_workframe.Router.Synthesis.{
  catalog_cost_tier, synthesized_policies, synthesized_tool_quality, new_route,
  synthesized_base_route, repriced, is_not_synthesized, add_route, synthesize_loop,
  synthesize_cloud_routes,
}
use gestalt_workframe.Router.Capability.{
  capability_routing_enabled, task_lane, lane_for, strategy_tier, is_failing, benched, rank_of,
  is_ranked, cleared_key, unlisted_key, lane_order, turn_resolution, capability_order,
}
use gestalt_workframe.Router.Order.{
  cost_adjustment, tool_bonus, headroom_bonus, route_score, by_score, anchors, dealt, ordered_by,
  ordered_routes,
}
use gestalt_workframe.Router.Chat.{
  estimate_input_tokens, cloud_max_tokens, spend_request, reply_usage, degraded, book, cloud_chat,
  spend, try_cloud, try_local, release_slot, with_slot, try_route, after_round, chat_loop,
  chat_ordered, look_at_breaker, chat, replied, local_unavailable,
}
use gestalt_workframe.Router.Budgets.{
  output_cap_of, single_reserve, single_record, reserve_at, multi_gate_reserve, needs_counts,
  booked, multi_gate_record, headroom_points, multi_config, multi_gate_refresh, multi_gate,
}
use gestalt_workframe.Budget.Gate.{
  reserve, reserve_sqlite, record_usage, count_of, gate_init, session_key, preflight_block_reason,
  accounting_blocked, cap_exhausted_reason, estimate_cost, day_usd, month_usd,
}
use gestalt_workframe.Budget.Multi.{gate_for, gate_of, refresh_headroom_cache, measured, headroom}
use gestalt_workframe.Resolver.Order.{
  resolve_lane, screened, gated, order, best_margin, shortlist_length, tier_of,
}
use gestalt_workframe.Router.Tests.{one_gate, shop, outage, turn, router, cloud_route}
use gestalt_workframe.Router.Tests.Turns.{two_gates, multi_faults}

outage_escalates :
    (chat one_gate shop outage turn (router, (gate, fresh), [])).1
    ≡ replied cloud_route
        (record { content = "hello"; input_tokens = some 100; output_tokens = some 20 })
unfolding is_listed is_free_tier_model is_free_tier_route is_cloud supports_tools
    reliable_tool_calling task_matches has_provider is_provided_by price_given can_start started
    finished all_routes route_key route_named route_enabled clean_routing_strategy
    cached_provider_health probed provider_health local_route_callable score_adjustment
    runtime_blocked_reason errors_of record_route_failure close_routes reset_breaker_if_healthy
    is_policy_met is_tier_enabled reason_or route_allowed route_temporarily_blocked disabled_reason
    policy_blocked_reason runtime_selection_blocked_reason selection_blocked_reason is_selectable
    alias_to_catalog after_gateway catalog_id transport_kind catalog_cost_tier synthesized_policies
    synthesized_tool_quality new_route synthesized_base_route repriced is_not_synthesized add_route
    synthesize_loop synthesize_cloud_routes capability_routing_enabled task_lane lane_for
    strategy_tier is_failing benched rank_of is_ranked cleared_key unlisted_key lane_order
    turn_resolution capability_order cost_adjustment tool_bonus headroom_bonus route_score by_score
    anchors dealt ordered_by ordered_routes estimate_input_tokens cloud_max_tokens spend_request
    reply_usage degraded book cloud_chat spend try_cloud try_local release_slot with_slot try_route
    after_round chat_loop chat_ordered look_at_breaker chat output_cap_of single_reserve
    single_record reserve_at multi_gate_reserve needs_counts booked multi_gate_record
    headroom_points multi_config multi_gate_refresh reserve reserve_sqlite record_usage count_of
    gate_init session_key preflight_block_reason accounting_blocked cap_exhausted_reason
    estimate_cost day_usd month_usd gate_for gate_of refresh_headroom_cache measured headroom
    resolve_lane screened gated order best_margin shortlist_length tier_of get put sort_by usd_since
outage_escalates = refl

-- The same with Anthropic's own gate.
outage_fails :
    (chat
      (multi_gate plain_calendar multi_faults (λ now p. false))
      shop
      outage
      turn
      (router, (two_gates, fresh), [])).1
    ≡ local_unavailable
unfolding is_listed is_free_tier_model is_free_tier_route is_cloud supports_tools
    reliable_tool_calling task_matches has_provider is_provided_by price_given can_start started
    finished all_routes route_key route_named route_enabled clean_routing_strategy
    cached_provider_health probed provider_health local_route_callable score_adjustment
    runtime_blocked_reason errors_of record_route_failure close_routes reset_breaker_if_healthy
    is_policy_met is_tier_enabled reason_or route_allowed route_temporarily_blocked disabled_reason
    policy_blocked_reason runtime_selection_blocked_reason selection_blocked_reason is_selectable
    alias_to_catalog after_gateway catalog_id transport_kind catalog_cost_tier synthesized_policies
    synthesized_tool_quality new_route synthesized_base_route repriced is_not_synthesized add_route
    synthesize_loop synthesize_cloud_routes capability_routing_enabled task_lane lane_for
    strategy_tier is_failing benched rank_of is_ranked cleared_key unlisted_key lane_order
    turn_resolution capability_order cost_adjustment tool_bonus headroom_bonus route_score by_score
    anchors dealt ordered_by ordered_routes estimate_input_tokens cloud_max_tokens spend_request
    reply_usage degraded book cloud_chat spend try_cloud try_local release_slot with_slot try_route
    after_round chat_loop chat_ordered look_at_breaker chat output_cap_of single_reserve
    single_record reserve_at multi_gate_reserve needs_counts booked multi_gate_record
    headroom_points multi_config multi_gate_refresh reserve reserve_sqlite record_usage count_of
    gate_init session_key preflight_block_reason accounting_blocked cap_exhausted_reason
    estimate_cost day_usd month_usd gate_for gate_of refresh_headroom_cache measured headroom
    resolve_lane screened gated order best_margin shortlist_length tier_of get put sort_by usd_since
outage_fails = refl
