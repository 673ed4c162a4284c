-- ===== src/Router/Streams.antt =====
-- The effects of `stream_chat` of core/router.py.
use gestalt_workframe.Prelude.{
  ◌≡◌, refl, sym, Bool, true, false, not, List, [], ◌∷◌, if◌then◌else◌, inl, inr, Option-cases, leb,
  All,
}
use gestalt_workframe.Router.Routes.{ProviderRoute, is_cloud, has_provider}
use gestalt_workframe.Router.Slots.{can_start}
use gestalt_workframe.Router.State.{LlmRouter, local_route_callable}
use gestalt_workframe.Router.Gate.{Turn}
use gestalt_workframe.Router.Synthesis.{Deployment}
use gestalt_workframe.Router.Order.{ordered_routes}
use gestalt_workframe.Router.Chat.{
  SpendGate, Surroundings, Effect, succeeded, skipped, failed, Scene, Tried, with_slot,
  look_at_breaker,
}
use gestalt_workframe.Router.Stream.{
  Chunks, sent, is_empty, Streamed, after_cloud, stream_local, stream_route, give_up, stream_loop,
  stream_ordered, stream_chat,
}
use gestalt_workframe.Router.Passed.{Passed}
use gestalt_workframe.Router.Chosen.{ordered_routes-All}
use gestalt_workframe.Router.Orderly.{Upkeep, IsPaid, IsOrderly, with_slot-IsOrderly}
use gestalt_workframe.Router.Frame.{look-Lasting}
use gestalt_workframe.Router.Turns.{field-Lasting, any_store-Upkeep}

module _ (g : SpendGate) (d : Deployment) (o : Surroundings) (t : Turn)
    (stream : ProviderRoute → Chunks) (I : g.Store → Type 0) (Q C : ProviderRoute → Type 0)
    (up : Upkeep g I C) where
  abbrev Orderly : Scene g d o t → Type 0
  Orderly c = IsOrderly g d o t I Q C up c

  if-Orderly :
      (b : Bool) (x y : Streamed g d o t stream)
      → (b ≡ true → Orderly x.0)
      → (b ≡ false → Orderly y.0)
      → Orderly (if b then x else y).0
  if-Orderly true x y h k = h refl
  if-Orderly false x y h k = k refl

  after_cloud-Orderly :
      (rest : Scene g d o t → Streamed g d o t stream) (p : Tried g d o t)
      → ((c : Scene g d o t) → Orderly c → Orderly (rest c).0)
      → Orderly p.0
      → Orderly (after_cloud g d o t stream rest p).0
  unfolding after_cloud
  after_cloud-Orderly rest (c, succeeded reply) f h = h
  after_cloud-Orderly rest (c, skipped) f h = f c h
  after_cloud-Orderly rest (c, failed) f h = h

  stream_local-Orderly :
      (x : ProviderRoute) (rest : Scene g d o t → Streamed g d o t stream) (r : LlmRouter)
      (s : g.Store) (es : List Effect)
      → is_cloud x ≡ false
      → Q x
      → ((c : Scene g d o t) → Orderly c → Orderly (rest c).0)
      → Orderly (r, s, es)
      → Orderly (stream_local g d o t stream x rest r s es).0
  unfolding stream_local
  stream_local-Orderly x rest r s es off q f h =
      if-Orderly (not (stream x).breaks) _ _ (λ e. (h.0, (off, q, h.1)))
        (λ e.
          if-Orderly (is_empty (sent (stream x))) (rest _) _ (λ k. f _ (h.0, (off, q, h.1)))
            (λ k. (h.0, (off, q, h.1))))

  stream_route-Orderly :
      (x : ProviderRoute) (rest : Scene g d o t → Streamed g d o t stream) (r : LlmRouter)
      (s : g.Store) (es : List Effect)
      → Q x
      → ((c : Scene g d o t) → Orderly c → Orderly (rest c).0)
      → Orderly (r, s, es)
      → Orderly (stream_route g d o t stream x rest (r, s, es)).0
  unfolding stream_route
  stream_route-Orderly x rest r s es q f h =
      let called = local_route_callable d.words (o.monotonic_at x) (o.probe x) x r in
      let on_cloud = after_cloud g d o t stream rest (with_slot g d o t x (r, s, es)) in
      let on_local = stream_local g d o t stream x rest called.1 s es in
      let past = rest (called.1, s, es) in
      if-Orderly (not (has_provider x)) (rest (r, s, es)) _ (λ e. f (r, s, es) h)
        (λ e.
          if-Orderly (is_cloud x) on_cloud _
            (λ on.
              after_cloud-Orderly rest (with_slot g d o t x (r, s, es)) f
                (with_slot-IsOrderly g d o t I Q C up x r s es q h))
            (λ off.
              if-Orderly (not called.0) past _ (λ e. f _ h)
                (λ e.
                  if-Orderly (not (can_start called.1.concurrency (is_cloud x) called.1.active))
                    past on_local (λ e. f _ h)
                    (λ e. stream_local-Orderly x rest called.1 s es off q f h))))

  stream_loop-Orderly :
      (xs : List ProviderRoute) (c : Scene g d o t)
      → All Q xs
      → Orderly c
      → Orderly (stream_loop g d o t stream xs c).0
  unfolding stream_loop give_up
  stream_loop-Orderly [] (r, s, es) q h =
      if-Orderly (leb r.error_threshold r.error_count) _ _ (λ e. h) (λ e. h)
  stream_loop-Orderly (x ∷ xs) (r, s, es) q h =
      stream_route-Orderly x (stream_loop g d o t stream xs) r s es q.0
        (λ c k. stream_loop-Orderly xs c q.1 k) h

module _ (g : SpendGate) (d : Deployment) (o : Surroundings) (t : Turn)
    (stream : ProviderRoute → Chunks) where
  ordered-IsPaid :
      (r : LlmRouter) (s : g.Store)
      → IsPaid
          (Passed d.words t r.routing_strategy)
          (λ x. Unit)
          (stream_ordered g d o t stream r s []).0.2
  unfolding stream_ordered
  ordered-IsPaid r s =
      let s' = g.refresh o.utc s in
      let ordered = ordered_routes d (g.headroom s') o.monotonic t r in
      (stream_loop-Orderly g d o t stream (λ s. Unit) (Passed d.words t r.routing_strategy)
        (λ x. Unit) (any_store-Upkeep g) ordered.0 (ordered.1, s', [])
        (ordered_routes-All d (g.headroom s') o.monotonic t r) (tt, tt)).1

  -- Whatever the budget, the probes, the streams and the providers answer or raise, `stream_chat` calls only
  -- providers of routes that have passed the gate for this turn and the router's strategy, and a cloud
  -- route only right after the budget has admitted a call for it, and with a limit on its output.
  pub stream_calls-IsPaid :
      (r : LlmRouter) (s : g.Store)
      → IsPaid
          (Passed d.words t r.routing_strategy)
          (λ x. Unit)
          (stream_chat g d o t stream (r, s, [])).0.2
  unfolding stream_chat
  stream_calls-IsPaid r s = elim (Option-cases (look_at_breaker g d o t o.primary_healthy r)) [
    | inl e ↦ rw (e, stream_chat) tt
    | inr (r', e) ↦
        rw
          (
            e,
            stream_chat,
            sym (
                look-Lasting g d o t (λ y. y.routing_strategy ≡ r.routing_strategy)
                  (field-Lasting d.words (λ y. y.routing_strategy) (λ y a b c e h z. refl)
                    r.routing_strategy)
                  o.primary_healthy r r' e refl),
          )
          (ordered-IsPaid r' s)
  ]
