-- ===== src/Router/Source.antt =====
-- Where the texts that `stream_chat` of core/router.py yields come from.
use gestalt_workframe.Prelude.{
  ◌≡◌, refl, Bool, Option, none, some, IsIn, arith, true, false, not, ◌&&◌, List, [], ◌∷◌,
  if◌then◌else◌, ◌⊎◌, inl, inr, Option-cases, leb,
}
use gestalt_workframe.Router.Routes.{ProviderRoute, is_cloud, has_provider}
use gestalt_workframe.Router.Slots.{can_start, started}
use gestalt_workframe.Router.State.{LlmRouter, local_route_callable}
use gestalt_workframe.Router.Gate.{Turn, route_allowed}
use gestalt_workframe.Router.Synthesis.{Deployment}
use gestalt_workframe.Router.Order.{ordered_routes}
use gestalt_workframe.Router.Chat.{
  SpendGate, Surroundings, Reply, Effect, Attempt, succeeded, skipped, failed, Scene, Tried, book,
  spend_request, cloud_chat, spend, try_cloud, try_local, release_slot, with_slot, look_at_breaker,
}
use gestalt_workframe.Router.Stream.{
  Piece, text, Ending, returns, raises, Chunks, sent, is_empty, degraded_pieces, Streamed,
  after_cloud, stream_local, stream_route, give_up, stream_loop, stream_ordered, stream_chat,
}

module _ (o : Surroundings) (t : Turn) (stream : ProviderRoute → Chunks) where
  -- a stream that breaks off raises after its texts
  abbrev pub ended : Chunks → Ending
  ended c = if c.breaks then raises else returns

  -- The texts are those of the stream of one local route of the list, and the exception is that of the
  -- stream; or the text is all that the provider of one cloud route of the list answered; or it is the
  -- degraded answer; or there are none and an exception is raised.
  abbrev pub IsOneSource : List ProviderRoute → List Piece × Ending → Type 0
  IsOneSource xs (ps, e) =
      ((x : ProviderRoute) × IsIn x xs
        × (is_cloud x ≡ false)
        × (ps ≡ sent (stream x))
        × (e ≡ ended (stream x)))
      ⊎ ((x : ProviderRoute) × (reply : Reply) × IsIn x xs
          × (is_cloud x ≡ true)
          × (o.reply x ≡ some reply)
          × (ps ≡ text reply.content ∷ [])
          × (e ≡ returns))
      ⊎ ((ps ≡ degraded_pieces t) × (e ≡ returns))
      ⊎ ((ps ≡ []) × (e ≡ raises))

module _ (g : SpendGate) (d : Deployment) (o : Surroundings) (t : Turn) where
  -- an answer is what the route's provider replied
  Answered : ProviderRoute → Attempt → Type 0
  Answered x (succeeded reply) = o.reply x ≡ some reply
  Answered x skipped = Unit
  Answered x failed = Unit

  skipped-Answered : (x : ProviderRoute) → Answered x skipped
  unfolding Answered
  skipped-Answered x = tt

  if-Answered :
      (x : ProviderRoute) (b : Bool) (p q : Tried g d o t)
      → Answered x p.1
      → Answered x q.1
      → Answered x (if b then p else q).1
  if-Answered x true p q h k = h
  if-Answered x false p q h k = k

  book-Answered :
      (x : ProviderRoute) (reply : Reply) (r : LlmRouter) (es : List Effect) (b : g.Store × Bool)
      → o.reply x ≡ some reply
      → Answered x (book g d o t x reply r es b).1
  unfolding book Answered
  book-Answered x reply r es (s, true) h = h
  book-Answered x reply r es (s, false) h = tt

  cloud_chat-Answered :
      (x : ProviderRoute) (c : Scene g d o t) (a : Option Reply)
      → o.reply x ≡ a
      → Answered x (cloud_chat g d o t x c a).1
  unfolding cloud_chat Answered
  cloud_chat-Answered x (r, s, es) none h = tt
  cloud_chat-Answered x (r, s, es) (some reply) h = book-Answered x reply r _ _ h

  spend-Answered :
      (x : ProviderRoute) (r : LlmRouter) (es : List Effect) (a : g.Store × Option Bool)
      → Answered x (spend g d o t x r es a).1
  unfolding spend Answered
  spend-Answered x r es (s, none) = tt
  spend-Answered x r es (s, some false) = tt
  spend-Answered x r es (s, some true) = cloud_chat-Answered x _ (o.reply x) refl

  try_cloud-Answered :
      (x : ProviderRoute) (c : Scene g d o t) → Answered x (try_cloud g d o t x c).1
  unfolding try_cloud
  try_cloud-Answered x (r, s, es) =
      let asked =
        g.reserve (o.utc_at x) x.provider_budget_id (spend_request (g.output_cap s) t x) s in
      if-Answered x (is_cloud x && route_allowed d.words r t.cloud_allowed t.response_policy none x)
        (spend g d o t x r es asked) ((r, s, es), skipped) (spend-Answered x r es asked)
        (skipped-Answered x)

  try_local-Answered :
      (x : ProviderRoute) (c : Scene g d o t) (a : Option Reply)
      → o.reply x ≡ a
      → Answered x (try_local g d o t x c a).1
  unfolding try_local Answered
  try_local-Answered x (r, s, es) none h = tt
  try_local-Answered x (r, s, es) (some reply) h = h

  release-Answered :
      (x : ProviderRoute) (p : Tried g d o t)
      → Answered x p.1
      → Answered x (release_slot g d o t x p).1
  unfolding release_slot
  release-Answered x ((r, s, es), a) h = h

  with_slot-Answered :
      (x : ProviderRoute) (c : Scene g d o t) → Answered x (with_slot g d o t x c).1
  unfolding with_slot
  with_slot-Answered x (r, s, es) =
      let busy = record r { active = started (is_cloud x) r.active } in
      let on_cloud = try_cloud g d o t x (busy, s, es) in
      let on_local = try_local g d o t x (busy, s, es) (o.reply x) in
      let either = if is_cloud x then on_cloud else on_local in
      if-Answered x (not (can_start r.concurrency (is_cloud x) r.active)) ((r, s, es), skipped)
        (release_slot g d o t x either) (skipped-Answered x)
        (release-Answered x either (
          if-Answered x (is_cloud x) on_cloud on_local (try_cloud-Answered x (busy, s, es))
            (try_local-Answered x (busy, s, es) (o.reply x) refl)))

module _ (g : SpendGate) (d : Deployment) (o : Surroundings) (t : Turn)
    (stream : ProviderRoute → Chunks) (all : List ProviderRoute) where
  abbrev IsPure : Streamed g d o t stream → Type 0
  IsPure (c, ps, e) = IsOneSource o t stream all (ps, e)

  if-IsPure :
      (b : Bool) (x y : Streamed g d o t stream)
      → (b ≡ true → IsPure x)
      → (b ≡ false → IsPure y)
      → IsPure (if b then x else y)
  if-IsPure true x y h k = h refl
  if-IsPure false x y h k = k refl

  after_cloud-IsPure :
      (x : ProviderRoute) (rest : Scene g d o t → Streamed g d o t stream) (p : Tried g d o t)
      → IsIn x all
      → is_cloud x ≡ true
      → Answered g d o t x p.1
      → ((c : Scene g d o t) → IsPure (rest c))
      → IsPure (after_cloud g d o t stream rest p)
  unfolding after_cloud Answered
  after_cloud-IsPure x rest (c, succeeded reply) i on a h =
      inr (inl (x, reply, i, on, a, refl, refl))
  after_cloud-IsPure x rest (c, skipped) i on a h = h c
  after_cloud-IsPure x rest (c, failed) i on a h = inr (inr (inr (refl, refl)))

  not-true : (b : Bool) → not b ≡ true → b ≡ false
  not-true b h = ground (arith, h)

  not-false : (b : Bool) → not b ≡ false → b ≡ true
  not-false b h = ground (arith, h)

  ended_calm : (c : Chunks) → c.breaks ≡ false → returns ≡ ended o t stream c
  ended_calm c h = rw h refl

  ended_broken : (c : Chunks) → c.breaks ≡ true → raises ≡ ended o t stream c
  ended_broken c h = rw h refl

  stream_local-IsPure :
      (x : ProviderRoute) (rest : Scene g d o t → Streamed g d o t stream) (r : LlmRouter)
      (s : g.Store) (es : List Effect)
      → IsIn x all
      → is_cloud x ≡ false
      → ((c : Scene g d o t) → IsPure (rest c))
      → IsPure (stream_local g d o t stream x rest r s es)
  unfolding stream_local
  stream_local-IsPure x rest r s es i off h =
      if-IsPure (not (stream x).breaks) (_, _, returns) _
        (λ e. inl (x, i, off, refl, ended_calm (stream x) (not-true (stream x).breaks e)))
        (λ e.
          if-IsPure (is_empty (sent (stream x))) (rest _) (_, _, raises) (λ k. h _)
            (λ k. inl (x, i, off, refl, ended_broken (stream x) (not-false (stream x).breaks e))))

  stream_route-IsPure :
      (x : ProviderRoute) (rest : Scene g d o t → Streamed g d o t stream) (c : Scene g d o t)
      → IsIn x all
      → ((c : Scene g d o t) → IsPure (rest c))
      → IsPure (stream_route g d o t stream x rest c)
  unfolding stream_route
  stream_route-IsPure x rest (r, s, es) i h =
      let called = local_route_callable d.words (o.monotonic_at x) (o.probe x) x r in
      let slotted = with_slot g d o t x (r, s, es) in
      if-IsPure (not (has_provider x)) (rest (r, s, es)) _ (λ e. h (r, s, es))
        (λ e.
          if-IsPure (is_cloud x) (after_cloud g d o t stream rest slotted) _
            (λ on.
              after_cloud-IsPure x rest slotted i on (with_slot-Answered g d o t x (r, s, es)) h)
            (λ off.
              if-IsPure (not called.0) (rest (called.1, s, es)) _ (λ e. h _)
                (λ e.
                  if-IsPure (not (can_start called.1.concurrency (is_cloud x) called.1.active))
                    (rest (called.1, s, es)) (stream_local g d o t stream x rest called.1 s es)
                    (λ e. h _) (λ e. stream_local-IsPure x rest called.1 s es i off h))))

  give_up-IsPure : (c : Scene g d o t) → IsPure (give_up g d o t stream c)
  unfolding give_up
  give_up-IsPure (r, s, es) =
      if-IsPure (leb r.error_threshold r.error_count) (_, degraded_pieces t, returns)
        ((r, s, es), degraded_pieces t, returns) (λ e. inr (inr (inl (refl, refl))))
        (λ e. inr (inr (inl (refl, refl))))

  stream_loop-IsPure :
      (xs : List ProviderRoute) (c : Scene g d o t)
      → ((x : ProviderRoute) → IsIn x xs → IsIn x all)
      → IsPure (stream_loop g d o t stream xs c)
  unfolding stream_loop
  stream_loop-IsPure [] c within = give_up-IsPure c
  stream_loop-IsPure (x ∷ xs) c within =
      stream_route-IsPure x (stream_loop g d o t stream xs) c (within x (inl refl))
        (λ c. stream_loop-IsPure xs c (λ y i. within y (inr i)))

module _ (g : SpendGate) (d : Deployment) (o : Surroundings) (t : Turn)
    (stream : ProviderRoute → Chunks) where
  -- The routes of a turn, in the order in which they are tried; there are none where the look at the
  -- breaker raises.
  unfoldable pub routes_of_turn : Scene g d o t → List ProviderRoute
  routes_of_turn (r, s, es) = elim (look_at_breaker g d o t o.primary_healthy r) [
    | none ↦ []
    | some r' ↦ (ordered_routes d (g.headroom (g.refresh o.utc s)) o.monotonic t r').0
  ]

  stream_ordered-IsPure :
      (r : LlmRouter) (s : g.Store) (es : List Effect)
      → IsPure g d o t stream
          (ordered_routes d (g.headroom (g.refresh o.utc s)) o.monotonic t r).0
          (stream_ordered g d o t stream r s es)
  unfolding stream_ordered
  stream_ordered-IsPure r s es =
      let ordered = ordered_routes d (g.headroom (g.refresh o.utc s)) o.monotonic t r in
      stream_loop-IsPure g d o t stream ordered.0 ordered.0 (ordered.1, g.refresh o.utc s, es)
        (λ x i. i)

  -- `stream_chat` never joins, cuts or makes up the output of routes: what it yields are the texts of the
  -- stream of one local route among the turn's ordered routes, and it raises afterwards exactly where that
  -- stream breaks off; or it is the content that the provider of one cloud route among them replied, as one
  -- text; or the degraded answer; or it yields nothing and raises.
  pub stream_chat-IsOneSource :
      (c : Scene g d o t)
      → IsOneSource o t stream
          (routes_of_turn c)
          ((stream_chat g d o t stream c).1, (stream_chat g d o t stream c).2)
  unfolding stream_chat routes_of_turn
  stream_chat-IsOneSource (r, s, es) =
      elim (Option-cases (look_at_breaker g d o t o.primary_healthy r)) [
        | inl e ↦ rw (e, stream_chat, routes_of_turn) (inr (inr (inr (refl, refl))))
        | inr (r', e) ↦ rw (e, stream_chat, routes_of_turn) (stream_ordered-IsPure r' s es)
      ]
