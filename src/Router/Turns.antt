-- ===== src/Router/Turns.antt =====
-- Turns of core/router.py, one after the other: what they call, spend and leave behind.
use gestalt_workframe.Prelude.{
  ℕ, ◌+◌, ◌≡◌, refl, sym, ap, ◌∙◌, Bool, true, false, ◌&&◌, List, [], ◌∷◌, text_key, if◌then◌else◌,
  inl, inr, Option-cases, leb,
}
use gestalt_workframe.Router.Routes.{Words, ProviderRoute, is_provided_by}
use gestalt_workframe.Router.State.{
  LlmRouter, Probe, provider_health, cached_provider_health, record_route_failure,
  reset_breaker_if_healthy, close_routes, route_key, errors_of,
}
use gestalt_workframe.Router.Gate.{Turn}
use gestalt_workframe.Router.Synthesis.{Deployment}
use gestalt_workframe.Router.Passed.{Passed}
use gestalt_workframe.Router.Chat.{SpendGate, Surroundings, look_at_breaker, chat}
use gestalt_workframe.Router.Frame.{Lasting, chat-Lasting, look-Lasting}
use gestalt_workframe.Router.Orderly.{Upkeep, IsPaid, chat_ordered-IsPaid}

pub if_same :
    {A B : Type 0} (f : A → B) (b : Bool) (x y : A) {c : B}
    → f x ≡ c
    → f y ≡ c
    → f (if b then x else y) ≡ c
if_same f true x y h k = h
if_same f false x y h k = k

-- only the cache differs
pub probed-health_cache :
    (w : Words) (now : ℕ) (p : Probe) (x : ProviderRoute) (r : LlmRouter)
    → (provider_health w now p x r).1
      ≡ record r { health_cache = (provider_health w now p x r).1.health_cache }
unfolding provider_health
probed-health_cache w now p x r = elim (Option-cases (cached_provider_health w now r x)) [
  | inl e ↦ rw e refl
  | inr (h, e) ↦ rw e refl
]

-- A field that neither the breaker nor the caches are kept in.
module _ {A : Type 0} (w : Words) (field : LlmRouter → A)
    (apart : (r : LlmRouter) (a : ℕ) (b : Bool) (c : _) (e : _) (h : _) (y : _)
      → field record r {
        error_count = a;
        breaker_open = b;
        route_error_count = c;
        route_breaker_open = e;
        health_cache = h;
        synthesized_routes = y;
      }
        ≡ field r) where
  closed_field : (xs : List ProviderRoute) (r : LlmRouter) → field (close_routes w xs r) ≡ field r
  unfolding close_routes
  closed_field [] r = refl
  closed_field (x ∷ xs) r =
      closed_field xs _ ∙ if_same field (is_provided_by r.primary x) _ r (apart r _ _ _ _ _ _) refl

  pub field-Lasting : (a : A) → Lasting w (λ r. field r ≡ a)
  unfolding record_route_failure reset_breaker_if_healthy
  field-Lasting a = record {
    grown = λ r r' e h. ap field e ∙ apart r _ _ _ _ _ _ ∙ h;
    probed_health =
        λ now p x r h. ap field (probed-health_cache w now p x r) ∙ apart r _ _ _ _ _ _ ∙ h;
    failure = λ x r h.
        if_same field (leb r.error_threshold (errors_of (route_key w x) r + 1)) _ _
          (apart r _ _ _ _ _ _ ∙ h) (apart r _ _ _ _ _ _ ∙ h);
    reset = λ healthy r h.
        if_same field (r.breaker_open && healthy) _ r
          (closed_field r.routes _ ∙ apart r _ _ _ _ _ _ ∙ h) h;
  }

-- Whatever the budget, the probes and the providers answer or raise, a turn of `chat` gives back every
-- slot for a generation that it took.
pub chat_frees_slots :
    (g : SpendGate) (d : Deployment) (o : Surroundings) (t : Turn) (r : LlmRouter) (s : g.Store)
    → (chat g d o t (r, s, [])).0.0.active ≡ r.active
chat_frees_slots g d o t r s =
    chat-Lasting g d o t (λ y. y.active ≡ r.active)
      (field-Lasting d.words (λ y. y.active) (λ y a b c e h z. refl) r.active) (r, s, []) refl

module _ (g : SpendGate) (d : Deployment) (o : Surroundings) (t : Turn) (I : g.Store → Type 0)
    (C : ProviderRoute → Type 0) (up : Upkeep g I C) where
  pub chat-IsPaid :
      (r : LlmRouter) (s : g.Store)
      → I s
      → I (chat g d o t (r, s, [])).0.1
        × IsPaid (Passed d.words t r.routing_strategy) C (chat g d o t (r, s, [])).0.2
  unfolding chat
  chat-IsPaid r s h = elim (Option-cases (look_at_breaker g d o t o.primary_healthy r)) [
    | inl e ↦ rw (e, chat) (h, tt)
    | inr (r', e) ↦
        rw
          (
            e,
            chat,
            sym (
                look-Lasting g d o t (λ y. y.routing_strategy ≡ r.routing_strategy)
                  (field-Lasting d.words (λ y. y.routing_strategy) (λ y a b c e h z. refl)
                    r.routing_strategy)
                  o.primary_healthy r r' e refl),
          )
          (chat_ordered-IsPaid g d o t I C up r' s h)
  ]

-- no condition on the budget
pub any_store-Upkeep : (g : SpendGate) → Upkeep g (λ s. Unit) (λ x. Unit)
any_store-Upkeep g = record {
  refresh = λ now s h. tt;
  reserve = λ now p q s h. tt;
  record_usage = λ now p u s h. tt;
  admits = λ now x q s h e. tt;
}

-- Whatever the budget, the probes and the providers answer or raise, `chat` calls only providers of routes
-- that have passed the gate for this turn and the router's strategy: no free endpoint, a cloud route only
-- where the turn, its policy and the mark of its context allow it. A cloud route is called right after the
-- budget has admitted a call for this very route, and with a limit on its output.
pub chat_calls-IsPaid :
    (g : SpendGate) (d : Deployment) (o : Surroundings) (t : Turn) (r : LlmRouter) (s : g.Store)
    → IsPaid (Passed d.words t r.routing_strategy) (λ x. Unit) (chat g d o t (r, s, [])).0.2
chat_calls-IsPaid g d o t r s =
    (chat-IsPaid g d o t (λ s. Unit) (λ x. Unit) (any_store-Upkeep g) r s tt).1

-- A turn with what it meets.
pub record Round : Type 0 where
  pub deployment : Deployment
  pub outside : Surroundings
  pub turn : Turn

-- Turns one after the other; the library of texts is that of the process.
unfoldable pub run_chats :
    (g : SpendGate) → Words → List Round → LlmRouter → g.Store → LlmRouter × g.Store
run_chats g w [] r s = (r, s)
run_chats g w (c ∷ cs) r s =
    let scene = (chat g (record c.deployment { words = w }) c.outside c.turn (r, s, [])).0 in
    run_chats g w cs scene.0 scene.1

module _ (g : SpendGate) (w : Words) where
  pub run_chats-Lasting :
      (R : LlmRouter → Type 0) (last : Lasting w R) (cs : List Round) (r : LlmRouter) (s : g.Store)
      → R r
      → R (run_chats g w cs r s).0
  unfolding run_chats
  run_chats-Lasting R last [] r s h = h
  run_chats-Lasting R last (c ∷ cs) r s h =
      run_chats-Lasting R last cs _ _
        (chat-Lasting g (record c.deployment { words = w }) c.outside c.turn R last (r, s, []) h)

  pub run_chats-Upkeep :
      (I : g.Store → Type 0) (C : ProviderRoute → Type 0) (up : Upkeep g I C) (cs : List Round)
      (r : LlmRouter) (s : g.Store)
      → I s
      → I (run_chats g w cs r s).1
  unfolding run_chats
  run_chats-Upkeep I C up [] r s h = h
  run_chats-Upkeep I C up (c ∷ cs) r s h =
      run_chats-Upkeep I C up cs _ _
        (chat-IsPaid g (record c.deployment { words = w }) c.outside c.turn I C up r s h).0
