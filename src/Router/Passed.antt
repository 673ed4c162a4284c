-- ===== src/Router/Passed.antt =====
-- What a route must meet to be tried by core/router.py.
use gestalt_workframe.Prelude.{
  ℕ, ◌≡◌, ◌↔◌, refl, String, Bool, true, false, not, ◌&&◌, Option, none, List, ◌==◌, text_key,
  arith, if◌then◌else◌, inl, inr, Bool-cases,
}
use gestalt_workframe.Router.Routes.{
  Words, ProviderRoute, is_free_tier_route, is_cloud, reliable_tool_calling, has_provider,
}
use gestalt_workframe.Router.State.{LlmRouter, route_enabled, Health}
use gestalt_workframe.Router.Gate.{
  Turn, is_policy_met, route_allowed, route_temporarily_blocked, policy_blocked_reason,
  disabled_reason, reason_or, runtime_selection_blocked_reason, selection_blocked_reason,
  is_tier_enabled, route_blocked_reason, callable_now,
}

-- What neither the breaker nor the switches have a say in.
pub record Passed (w : Words) (t : Turn) (strategy : String) (route : ProviderRoute) : Type 0 where
  pub not_free : is_free_tier_route w route ≡ false
  pub not_local_only : is_cloud route ≡ true → (strategy == "local_only") ≡ false
  pub not_cloud_only : is_cloud route ≡ false → (strategy == "cloud_only") ≡ false
  pub tools : t.wants_tools ≡ true → reliable_tool_calling w route ≡ true
  pub not_forced : is_cloud route ≡ false → t.force_secondary ≡ false
  pub eligible : is_cloud route ≡ true → t.context_cloud_eligible ≡ true
  pub not_disabled : (route.deployment_status == "disabled") ≡ false
  pub configured : route.configured ≡ true
  pub provided : has_provider route ≡ true
  pub allowed : is_cloud route ≡ true → t.cloud_allowed ≡ true
  pub policy_met : is_cloud route ≡ true → is_policy_met t.response_policy route ≡ true

-- whether a text is empty, of a conditional
blank_if :
    (b : Bool) (x y : String) → ((if b then x else y) == "") ≡ (if b then x == "" else (y == ""))
blank_if true x y = refl
blank_if false x y = refl

reason_or_given : (a b : String) → (b == "") ≡ false → (reason_or a b == "") ≡ false
unfolding reason_or
reason_or_given a b h = elim (Bool-cases (a == "")) [ inl e ↦ rw e h | inr e ↦ rw e e ]

disabled_given : (r : LlmRouter) (x : ProviderRoute) → (disabled_reason r x == "") ≡ false
unfolding disabled_reason
disabled_given r x = rw blank_if (ground arith)

policy_given :
    (r : LlmRouter) (b : Bool) (p : Option String) (x : ProviderRoute)
    → (policy_blocked_reason r b p x == "") ≡ false
unfolding policy_blocked_reason
policy_given r b p x =
    rw (blank_if, blank_if, blank_if, blank_if, blank_if, blank_if)
      (ground (
        arith,
        reason_or_given x.blocked_reason "not_configured" refl,
        reason_or_given x.blocked_reason "provider_not_built" refl,
        disabled_given r x,
      ))

-- what `_route_allowed` asks for, where no tiers are given
record Allowed (w : Words) (r : LlmRouter) (t : Turn) (x : ProviderRoute) : Type 0 where
  not_free : is_free_tier_route w x ≡ false
  not_disabled : (x.deployment_status == "disabled") ≡ false
  configured : x.configured ≡ true
  provided : has_provider x ≡ true
  enabled : route_enabled r x.name ≡ true
  allowed : is_cloud x ≡ true → t.cloud_allowed ≡ true
  policy_met : is_cloud x ≡ true → is_policy_met t.response_policy x ≡ true

Allowed-iff :
    (w : Words) (r : LlmRouter) (t : Turn) (x : ProviderRoute)
    → (route_allowed w r t.cloud_allowed t.response_policy none x ≡ true) ↔ Allowed w r t x
unfolding route_allowed is_tier_enabled
Allowed-iff w r t x = (λ h. ground (arith, h), λ h. ground (arith, h))

-- the chain of tests, by their answers
chain_iff :
    (free local cloud tools needs only forced eligible blocked allowed policy clear : Bool)
    → policy ≡ false
    → ((if free
          then false
          else if local && cloud
          then false
          else if needs && not tools
          then false
          else if only && not cloud
          then false
          else if forced && not cloud
          then false
          else if cloud && not eligible
          then false
          else if blocked
          then false
          else if not allowed
          then policy
          else clear)
        ≡ true)
      ↔ ((free ≡ false)
          × (cloud ≡ true → local ≡ false)
          × (cloud ≡ false → only ≡ false)
          × (needs ≡ true → tools ≡ true)
          × (cloud ≡ false → forced ≡ false)
          × (cloud ≡ true → eligible ≡ true)
          × (blocked ≡ false)
          × (allowed ≡ true)
          × (clear ≡ true))
chain_iff f l c t n o s e b a p q h = ground (arith, h)

-- The router takes a route for a turn exactly when it is no free endpoint, its family is one that the
-- strategy, the turn's flag for the secondary and the context's mark allow, it calls tools reliably if the
-- turn needs that, its breaker is closed, it is not disabled, is configured, built and enabled, if it is a
-- cloud route the turn allows the cloud and its policy names the route, and no cached probe speaks against it.
pub selectable_iff :
    (w : Words) (now : ℕ) (t : Turn) (r : LlmRouter) (x : ProviderRoute)
    → (selection_blocked_reason w now t r x == "" ≡ true) ↔ (
        Passed w t r.routing_strategy x
        × (route_enabled r x.name ≡ true)
        × (route_temporarily_blocked w r x ≡ false)
        × (runtime_selection_blocked_reason w now r x == "" ≡ true))
unfolding selection_blocked_reason
selectable_iff w now t r x =
    let chain =
      chain_iff (is_free_tier_route w x) (r.routing_strategy == "local_only") (is_cloud x)
        (reliable_tool_calling w x) t.wants_tools (r.routing_strategy == "cloud_only")
        t.force_secondary t.context_cloud_eligible (route_temporarily_blocked w r x)
        (route_allowed w r t.cloud_allowed t.response_policy none x)
        (policy_blocked_reason r t.cloud_allowed t.response_policy x == "")
        (runtime_selection_blocked_reason w now r x == "")
        (policy_given r t.cloud_allowed t.response_policy x) in
    let gate = Allowed-iff w r t x in
    simp blank_if (
      λ h.
          let (free, local, only, tools, forced, eligible, closed, allowed, clear) = chain.0 h in
          let a = gate.0 allowed in
          (
            record {
              not_free = free;
              not_local_only = local;
              not_cloud_only = only;
              tools = tools;
              not_forced = forced;
              eligible = eligible;
              not_disabled = a.not_disabled;
              configured = a.configured;
              provided = a.provided;
              allowed = a.allowed;
              policy_met = a.policy_met;
            },
            a.enabled,
            closed,
            clear,
          ),
      λ (p, enabled, closed, clear).
          let a : Allowed w r t x = record {
            not_free = p.not_free;
            not_disabled = p.not_disabled;
            configured = p.configured;
            provided = p.provided;
            enabled = enabled;
            allowed = p.allowed;
            policy_met = p.policy_met;
          } in
          chain.1 (
            p.not_free,
            p.not_local_only,
            p.not_cloud_only,
            p.tools,
            p.not_forced,
            p.eligible,
            closed,
            gate.1 a,
            clear,
          ),
    )

-- The panel shows no reason against a route exactly when it shows the route as callable and its endpoint
-- was probed and is healthy.
pub callable_iff :
    (w : Words) (r : LlmRouter) (h : Health) (allowed : Bool) (policy : Option String)
    (tiers : Option (List String)) (x : ProviderRoute)
    → (route_blocked_reason w r h allowed policy tiers x == "" ≡ true) ↔ (
        (callable_now w r h allowed policy tiers x ≡ true)
        × (h.checked ≡ true)
        × (h.endpoint_healthy ≡ true))
unfolding route_blocked_reason callable_now route_allowed
callable_iff w r h allowed policy tiers x =
    let f1 = reason_or_given x.blocked_reason "not_configured" refl in
    let f2 = reason_or_given x.blocked_reason "provider_not_built" refl in
    let f3 = disabled_given r x in
    simp blank_if (λ k. ground (arith, k, f1, f2, f3), λ k. ground (arith, k, f1, f2, f3))
