-- ===== src/Router/Chat.antt =====
-- `chat` of core/router.py: the loop over the ordered routes, with the budget's gate as an interface.
use gestalt_workframe.Prelude.{
  ℕ, ◌+◌, ◌/◌, String, Bool, true, false, not, ◌&&◌, Option, none, some, List, [], ◌∷◌, ltb,
  or_default, if◌then◌else◌,
}
use gestalt_workframe.Prelude.Int.{ℤ, pos}
use gestalt_workframe.Budget.Gate.{Request, Usage}
use gestalt_workframe.Router.Routes.{
  LlmProvider, ProviderRoute, is_cloud, has_provider, price_given,
}
use gestalt_workframe.Router.Slots.{larger, can_start, started, finished}
use gestalt_workframe.Router.State.{
  LlmRouter, Probe, local_route_callable, record_route_failure, reset_breaker_if_healthy,
}
use gestalt_workframe.Router.Gate.{Turn, route_allowed}
use gestalt_workframe.Router.Synthesis.{Deployment}
use gestalt_workframe.Router.Order.{ordered_routes}

-- What the router asks of `cloud_budget`, at an instant of the calendar and for a provider's budget:
-- whether a call is admitted, none where asking raises; to book what a call used, false where booking
-- raises; `refresh_headroom_cache`; the cap on output tokens, 0 for none; and the points for headroom.
pub record SpendGate : Type 1 where
  pub Store : Type 0
  pub reserve : ℕ → String → Request → Store → Store × Option Bool
  pub record_usage : ℕ → String → Usage → Store → Store × Bool
  pub refresh : ℕ → Store → Store
  pub output_cap : Store → ℕ
  pub headroom : Store → String → ℕ

-- What a provider answers, with the token counts of its usage, which are not below 0.
pub record Reply : Type 0 where
  pub content : String
  pub input_tokens : Option ℕ
  pub output_tokens : Option ℕ

-- What a call meets outside: the monotonic clock and the calendar's at its start and when a route is
-- tried, the answers of `is_healthy()` of the primary provider, of the probe of a route's health and of
-- the provider's `chat`, none where they raise.
pub record Surroundings : Type 0 where
  pub monotonic : ℕ
  pub utc : ℕ
  pub monotonic_at : ProviderRoute → ℕ
  pub utc_at : ProviderRoute → ℕ
  pub primary_healthy : Option Bool
  pub probe : ProviderRoute → Probe
  pub reply : ProviderRoute → Option Reply

-- What the router does that others see: it asks the budget about a route, or calls the route's provider,
-- with a limit on the output for a cloud route.
pub data Effect : Type 0 where
  reserves : (route : ProviderRoute) → (answer : Option Bool) → Effect
  calls : (route : ProviderRoute) → (max_tokens : Option ℤ) → Effect

-- `_estimate_input_tokens`
unfoldable pub estimate_input_tokens : Turn → ℕ
estimate_input_tokens t = larger 1 ((t.text_length + 3) / 4)

own_max_tokens : Option LlmProvider → ℤ
own_max_tokens none = pos 0
own_max_tokens (some p) = or_default p.max_tokens (pos 0)

-- `_cloud_max_tokens`, for the cap of the budget
unfoldable pub cloud_max_tokens : ℕ → ProviderRoute → ℤ
unfolding own_max_tokens
cloud_max_tokens cap route = if ltb 0 cap then pos cap else own_max_tokens route.provider

unfoldable pub spend_request : ℕ → Turn → ProviderRoute → Request
spend_request cap t route = record {
  session_id = t.session_id;
  estimated_input_tokens = pos (estimate_input_tokens t);
  requested_output_tokens = cloud_max_tokens cap route;
  input_price = price_given route.input_price_usd_per_million;
  output_price = price_given route.output_price_usd_per_million;
}

counted : Option ℕ → Option ℤ
counted none = none
counted (some n) = some (pos n)

class_of : Option LlmProvider → String
class_of none = "NoneType"
class_of (some p) = p.class_name

-- what `_cloud_chat` reports to the budget
unfoldable pub reply_usage : Turn → ProviderRoute → Reply → Usage
unfolding counted class_of
reply_usage t route reply = record {
  session_id = t.session_id;
  provider = class_of route.provider;
  model = route.model;
  input_tokens = counted reply.input_tokens;
  output_tokens = counted reply.output_tokens;
  input_price = price_given route.input_price_usd_per_million;
  output_price = price_given route.output_price_usd_per_million;
}

pub data ChatAnswer : Type 0 where
  replied : ProviderRoute → Reply → ChatAnswer
  local_unavailable local_required raised : ChatAnswer

-- What becomes of one route in the loop: an answer, `continue`, or an exception.
pub data Attempt : Type 0 where
  succeeded : Reply → Attempt
  skipped failed : Attempt

-- the degraded answer at the end
unfoldable pub degraded : Turn → ChatAnswer
degraded t =
    if t.context_cloud_eligible then ChatAnswer.local_unavailable else ChatAnswer.local_required

module _ (g : SpendGate) (d : Deployment) (o : Surroundings) (t : Turn) where
  -- The router, the budget's store, and the effects, the last first.
  abbrev pub Scene : Type 0
  Scene = LlmRouter × g.Store × List Effect

  abbrev pub Tried : Type 0
  Tried = Scene × Attempt

  -- what booking left, and whether it raised
  unfoldable pub book : ProviderRoute → Reply → LlmRouter → List Effect → g.Store × Bool → Tried
  book route reply r es (s, true) = ((r, s, es), succeeded reply)
  book route reply r es (s, false) = ((r, s, es), failed)

  -- `_cloud_chat`, for what the provider answers
  unfoldable pub cloud_chat : ProviderRoute → Scene → Option Reply → Tried
  unfolding book
  cloud_chat route (r, s, es) none =
      ((r, s, calls route (some (cloud_max_tokens (g.output_cap s) route)) ∷ es), failed)
  cloud_chat route (r, s, es) (some reply) =
      book route reply r (calls route (some (cloud_max_tokens (g.output_cap s) route)) ∷ es)
        (g.record_usage (o.utc_at route) route.provider_budget_id (reply_usage t route reply) s)

  -- goes on with what the budget answered
  unfoldable pub spend : ProviderRoute → LlmRouter → List Effect → g.Store × Option Bool → Tried
  unfolding cloud_chat
  spend route r es (s, none) = ((r, s, reserves route none ∷ es), failed)
  spend route r es (s, some false) = ((r, s, reserves route (some false) ∷ es), skipped)
  spend route r es (s, some true) =
      cloud_chat route (r, s, reserves route (some true) ∷ es) (o.reply route)

  -- `_cloud_spend_allowed`, then `_cloud_chat`
  unfoldable pub try_cloud : ProviderRoute → Scene → Tried
  unfolding spend
  try_cloud route (r, s, es) =
      let asked =
        g.reserve (o.utc_at route) route.provider_budget_id (spend_request (g.output_cap s) t route)
          s in
      let spent = spend route r es asked in
      if is_cloud route && route_allowed d.words r t.cloud_allowed t.response_policy none route
      then spent
      else ((r, s, es), skipped)

  unfoldable pub try_local : ProviderRoute → Scene → Option Reply → Tried
  try_local route (r, s, es) none = ((r, s, calls route none ∷ es), failed)
  try_local route (r, s, es) (some reply) = ((r, s, calls route none ∷ es), succeeded reply)

  -- the end of `_generation_slot`, whatever came of it
  unfoldable pub release_slot : ProviderRoute → Tried → Tried
  release_slot route ((r, s, es), a) =
      ((record r { active = finished (is_cloud route) r.active }, s, es), a)

  -- `_generation_slot` with its body
  unfoldable pub with_slot : ProviderRoute → Scene → Tried
  unfolding try_cloud try_local release_slot
  with_slot route (r, s, es) =
      let busy = record r { active = started (is_cloud route) r.active } in
      let on_cloud = try_cloud route (busy, s, es) in
      let on_local = try_local route (busy, s, es) (o.reply route) in
      if not (can_start r.concurrency (is_cloud route) r.active)
      then ((r, s, es), skipped)
      else release_slot route (if is_cloud route then on_cloud else on_local)

  -- one round of the loop, up to its `except`
  unfoldable pub try_route : ProviderRoute → Scene → Tried
  unfolding with_slot
  try_route route (r, s, es) =
      let (callable, r') =
        local_route_callable d.words (o.monotonic_at route) (o.probe route) route r in
      let slotted = with_slot route (r', s, es) in
      if not (has_provider route)
      then ((r, s, es), skipped)
      else if callable
      then slotted
      else ((r', s, es), skipped)

  -- what follows a round, for what the rest of the loop makes of a state
  unfoldable pub after_round :
      ProviderRoute → (Scene → Scene × ChatAnswer) → Tried → Scene × ChatAnswer
  after_round route rest (scene, succeeded reply) = (scene, replied route reply)
  after_round route rest (scene, skipped) = rest scene
  after_round route rest ((r, s, es), failed) = rest (record_route_failure d.words route r, s, es)

  unfoldable pub chat_loop : List ProviderRoute → Scene → Scene × ChatAnswer
  unfolding after_round try_route
  chat_loop [] scene = (scene, degraded t)
  chat_loop (x ∷ xs) scene = after_round x (chat_loop xs) (try_route x scene)

  -- `chat` once the breaker has been looked at
  unfoldable pub chat_ordered : LlmRouter → g.Store → List Effect → Scene × ChatAnswer
  unfolding chat_loop
  chat_ordered r s es =
      let s' = g.refresh o.utc s in
      let (routes, r') = ordered_routes d (g.headroom s') o.monotonic t r in
      chat_loop routes (r', s', es)

  -- the state when `_reset_breaker_if_healthy` returns, none where it raises
  unfoldable pub look_at_breaker : Option Bool → LlmRouter → Option LlmRouter
  look_at_breaker healthy r =
      if not r.breaker_open
      then some r
      else elim healthy [ none ↦ none | some h ↦ some (reset_breaker_if_healthy d.words h r) ]

  unfoldable pub chat : Scene → Scene × ChatAnswer
  unfolding chat_ordered
  chat (r, s, es) = elim (look_at_breaker o.primary_healthy r) [
    | none ↦ ((r, s, es), ChatAnswer.raised)
    | some r' ↦ chat_ordered r' s es
  ]
