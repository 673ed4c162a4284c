-- ===== src/Router/Tests.antt =====
-- A router with a local route and a cloud route, a turn, and an outage of the local model, for core/router.py.
mod Turns
mod Gates
mod Outage
use gestalt_workframe.Prelude.{true, false, none, some, [], ◌∷◌}
use gestalt_workframe.Prelude.Int.{pos}
use gestalt_workframe.Budget.Clock.{plain_calendar}
use gestalt_workframe.Budget.Tests.{calm, second_day}
use gestalt_workframe.Resolver.Catalog.{Python, Lane}
use gestalt_workframe.Router.Routes.{Words, LlmProvider, ProviderRoute}
use gestalt_workframe.Router.Slots.{GenerationConcurrencyPolicy}
use gestalt_workframe.Router.State.{LlmRouter, is_healthy}
use gestalt_workframe.Router.Gate.{Turn}
use gestalt_workframe.Router.Synthesis.{Deployment}
use gestalt_workframe.Router.Chat.{Surroundings, SpendGate}
use gestalt_workframe.Router.Budgets.{single_gate}
use gestalt_workframe.Router.Turns.{Round}

-- Texts that are in lower case and hold no colon.
abbrev pub plain_words : Words
plain_words = record {
  strip = λ s. s;
  lower = λ s. s;
  split = λ s. s ∷ [];
  join = λ a b. b;
  after_prefix = λ a b. none;
}

abbrev pub plain_python : Python
plain_python = record {
  lower_split = λ s. s ∷ [];
  lower_contains = λ marker s. false;
  instant = λ s. none;
}

abbrev pub llama : LlmProvider
llama = record { object = 1; class_name = "LlamaCppProvider"; max_tokens = some (pos 512) }

abbrev pub claude : LlmProvider
claude = record { object = 2; class_name = "AnthropicProvider"; max_tokens = some (pos 1024) }

abbrev pub local_route : ProviderRoute
local_route = record {
  name = "local";
  provider = some llama;
  provider_type = "llamacpp";
  model = "llama";
  role = "primary";
  cost_tier = "local";
  allowed_response_policies = "local_only" ∷ [];
  recommended_for = [];
  avoid_for = [];
  routing_priority = pos 10;
  configured = true;
  blocked_reason = "";
  deployment_status = "active";
  runtime_group = "";
  enabled_by_default = true;
  capabilities = "tools" ∷ [];
  tool_calling_quality = "ok";
  input_price_usd_per_million = 0;
  output_price_usd_per_million = 0;
  provider_budget_id = "default";
  preferred_provider_id = "";
  catalog_derived = false;
}

abbrev pub cloud_route : ProviderRoute
cloud_route = record local_route {
  name = "claude";
  provider = some claude;
  provider_type = "anthropic";
  model = "claude";
  role = "secondary";
  cost_tier = "premium";
  allowed_response_policies = "local_then_claude_if_high_value" ∷ [];
  input_price_usd_per_million = 3000000;
  output_price_usd_per_million = 15000000;
  provider_budget_id = "anthropic";
}

abbrev pub limits : GenerationConcurrencyPolicy
limits = record {
  normal_parallel_limit = 3;
  hard_parallel_limit = 5;
  max_local_generations = 2;
  max_cloud_generations = 3;
}

abbrev pub router : LlmRouter
router = record {
  primary = 1;
  error_threshold = 3;
  routes = local_route ∷ cloud_route ∷ [];
  error_count = 0;
  breaker_open = false;
  route_error_count = [];
  route_breaker_open = [];
  route_overrides = [];
  health_cache_ttl = 5;
  health_cache = [];
  synthesized_routes = [];
  routing_strategy = "prefer_local";
  runtime_manager = none;
  concurrency = limits;
  active = record { total = 0; local = 0; cloud = 0 };
}

abbrev pub guide : Lane
guide = record {
  name = "guide";
  must = [];
  min_context_tokens = 0;
  max_prompt_price = none;
  min_intelligence = none;
  min_coding = none;
  min_agentic = none;
  allow_preview = false;
  expected_input_tokens = 1500;
  expected_output_tokens = 300;
  expected_cached_input_tokens = 0;
  shortlist_size = pos 3;
}

abbrev pub shop : Deployment
shop = record {
  words = plain_words;
  python = plain_python;
  capability_flag = "";
  lanes = [];
  guide = guide;
  catalog = [];
  latencies = λ id. none;
  utc_now = second_day;
  transports = record { gateway_prefix = ""; direct_aliases = [] };
  openrouter_key = "";
  built_object = λ id. 9;
}

abbrev pub turn : Turn
turn = record {
  text_length = 400;
  wants_tools = false;
  force_secondary = false;
  cloud_allowed = true;
  response_policy = some "local_then_claude_if_high_value";
  task = none;
  session_id = some "s1";
  context_cloud_eligible = true;
}

-- The local model is down, and the cloud answers.
abbrev pub outage : Surroundings
outage = record {
  monotonic = 7;
  utc = second_day;
  monotonic_at = λ x. 7;
  utc_at = λ x. second_day;
  primary_healthy = some true;
  probe = λ x. is_healthy false;
  reply = λ x. some record { content = "hello"; input_tokens = some 100; output_tokens = some 20 };
}

abbrev pub one_gate : SpendGate
one_gate = single_gate plain_calendar (λ now. calm)

abbrev pub round : Round
round = record { deployment = shop; outside = outage; turn = turn }
