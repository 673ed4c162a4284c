-- ===== src/Router/Frame.antt =====
-- What `chat` of core/router.py leaves of the router's fields.
use gestalt_workframe.Prelude.{
  ℕ, ◌≡◌, refl, sym, ap, ◌∙◌, Bool, true, false, not, ◌&&◌, ◌||◌, Option, none, some, List, [], ◌∷◌,
  arith, if◌then◌else◌, ◌⊎◌, inl, inr, Bool-cases, Option-cases,
}
use mathlib.Core.Path.{subst}
use mathlib.Core.Option.{some_inj}
use gestalt_workframe.Router.Routes.{Words, ProviderRoute, is_cloud, has_provider}
use gestalt_workframe.Router.Slots.{Active, can_start, started, finished}
use gestalt_workframe.Router.State.{
  LlmRouter, Probe, provider_health, local_route_callable, record_route_failure,
  reset_breaker_if_healthy,
}
use gestalt_workframe.Router.Gate.{Turn, route_allowed}
use gestalt_workframe.Router.Synthesis.{Deployment}
use gestalt_workframe.Router.Order.{ordered_routes}
use gestalt_workframe.Router.Chosen.{Grown, ordered_routes-Grown}
use gestalt_workframe.Router.Chat.{
  SpendGate, Surroundings, Reply, Effect, succeeded, skipped, failed, ChatAnswer, Scene, Tried,
  book, cloud_chat, spend, try_cloud, try_local, release_slot, with_slot, try_route, after_round,
  chat_loop, chat_ordered, look_at_breaker, chat, spend_request, reply_usage,
}

-- A generation that starts and ends leaves the counters as they were.
pub finished-started : (on_cloud : Bool) (a : Active) → finished on_cloud (started on_cloud a) ≡ a
unfolding finished started
finished-started true a = ground arith
finished-started false a = ground arith

either_branch :
    {A : Type 0} {a : A} (b : Bool) (x y : A) → (if b then x else y) ≡ a → (x ≡ a) ⊎ (y ≡ a)
either_branch true x y h = inl h
either_branch false x y h = inr h

-- A property of the router that each step of a turn keeps.
pub record Lasting (w : Words) (R : LlmRouter → Type 0) : Type 0 where
  pub grown : (r r' : LlmRouter) → Grown r r' → R r → R r'
  pub probed_health :
      (now : ℕ) (p : Probe) (x : ProviderRoute) (r : LlmRouter)
      → R r
      → R (provider_health w now p x r).1
  pub failure : (x : ProviderRoute) (r : LlmRouter) → R r → R (record_route_failure w x r)
  pub reset : (healthy : Bool) (r : LlmRouter) → R r → R (reset_breaker_if_healthy w healthy r)

module _ (g : SpendGate) (d : Deployment) (o : Surroundings) (t : Turn) where
  book-router :
      (x : ProviderRoute) (reply : Reply) (r : LlmRouter) (es : List Effect) (p : g.Store × Bool)
      → (book g d o t x reply r es p).0.0 ≡ r
  unfolding book
  book-router x reply r es (s, true) = refl
  book-router x reply r es (s, false) = refl

  cloud_chat-router :
      (x : ProviderRoute) (r : LlmRouter) (s : g.Store) (es : List Effect) (reply : Option Reply)
      → (cloud_chat g d o t x (r, s, es) reply).0.0 ≡ r
  unfolding cloud_chat
  cloud_chat-router x r s es none = refl
  cloud_chat-router x r s es (some reply) =
      book-router x reply r _
        (g.record_usage (o.utc_at x) x.provider_budget_id (reply_usage t x reply) s)

  spend-router :
      (x : ProviderRoute) (r : LlmRouter) (es : List Effect) (p : g.Store × Option Bool)
      → (spend g d o t x r es p).0.0 ≡ r
  unfolding spend
  spend-router x r es (s, none) = refl
  spend-router x r es (s, some false) = refl
  spend-router x r es (s, some true) = cloud_chat-router x r s _ (o.reply x)

  if-router :
      (b : Bool) (x y : Tried g d o t) (r : LlmRouter)
      → x.0.0 ≡ r
      → y.0.0 ≡ r
      → (if b then x else y).0.0 ≡ r
  if-router true x y r h k = h
  if-router false x y r h k = k

  try_cloud-router :
      (x : ProviderRoute) (r : LlmRouter) (s : g.Store) (es : List Effect)
      → (try_cloud g d o t x (r, s, es)).0.0 ≡ r
  unfolding try_cloud
  try_cloud-router x r s es =
      if-router (is_cloud x && route_allowed d.words r t.cloud_allowed t.response_policy none x) _
        ((r, s, es), skipped) r
        (spend-router x r es
          (g.reserve (o.utc_at x) x.provider_budget_id (spend_request (g.output_cap s) t x) s))
        refl

  try_local-router :
      (x : ProviderRoute) (r : LlmRouter) (s : g.Store) (es : List Effect) (reply : Option Reply)
      → (try_local g d o t x (r, s, es) reply).0.0 ≡ r
  unfolding try_local
  try_local-router x r s es none = refl
  try_local-router x r s es (some reply) = refl

  release_slot-router :
      (x : ProviderRoute) (p : Tried g d o t)
      → (release_slot g d o t x p).0.0
        ≡ record p.0.0 { active = finished (is_cloud x) p.0.0.active }
  unfolding release_slot
  release_slot-router x ((r, s, es), a) = refl

  -- A slot leaves the router as it was, whatever its body meets.
  with_slot-router :
      (x : ProviderRoute) (r : LlmRouter) (s : g.Store) (es : List Effect)
      → (with_slot g d o t x (r, s, es)).0.0 ≡ r
  unfolding with_slot
  with_slot-router x r s es =
      let busy = record r { active = started (is_cloud x) r.active } in
      let on_cloud = try_cloud g d o t x (busy, s, es) in
      let on_local = try_local g d o t x (busy, s, es) (o.reply x) in
      if-router (not (can_start r.concurrency (is_cloud x) r.active)) ((r, s, es), skipped) _ r refl
        (release_slot-router x (if is_cloud x then on_cloud else on_local)
          ∙ ap (λ (y : LlmRouter). record y { active = finished (is_cloud x) y.active })
              (if-router (is_cloud x) on_cloud on_local busy (try_cloud-router x busy s es)
                (try_local-router x busy s es (o.reply x)))
          ∙ ap (λ (a : Active). record r { active = a }) (finished-started (is_cloud x) r.active))

  module _ (R : LlmRouter → Type 0) (last : Lasting d.words R) where
    callable-Lasting :
        (x : ProviderRoute) (r : LlmRouter)
        → R r
        → R (local_route_callable d.words (o.monotonic_at x) (o.probe x) x r).1
    unfolding local_route_callable
    callable-Lasting x r h = elim (Bool-cases (is_cloud x || not (has_provider x))) [
      | inl e ↦ rw e h
      | inr e ↦ rw e (last.probed_health (o.monotonic_at x) (o.probe x) x r h)
    ]

    if-Lasting : (b : Bool) (x y : Tried g d o t) → R x.0.0 → R y.0.0 → R (if b then x else y).0.0
    if-Lasting true x y h k = h
    if-Lasting false x y h k = k

    try_route-Lasting :
        (x : ProviderRoute) (r : LlmRouter) (s : g.Store) (es : List Effect)
        → R r
        → R (try_route g d o t x (r, s, es)).0.0
    unfolding try_route
    try_route-Lasting x r s es h =
        let called = local_route_callable d.words (o.monotonic_at x) (o.probe x) x r in
        let kept = callable-Lasting x r h in
        let slotted = with_slot g d o t x (called.1, s, es) in
        let tried = if called.0 then slotted else ((called.1, s, es), skipped) in
        if-Lasting (not (has_provider x)) ((r, s, es), skipped) tried h
          (if-Lasting called.0 slotted ((called.1, s, es), skipped)
            (subst R (sym (with_slot-router x called.1 s es)) kept) kept)

    after_round-Lasting :
        (x : ProviderRoute) (rest : Scene g d o t → Scene g d o t × ChatAnswer) (p : Tried g d o t)
        → ((c : Scene g d o t) → R c.0 → R (rest c).0.0)
        → R p.0.0
        → R (after_round g d o t x rest p).0.0
    unfolding after_round
    after_round-Lasting x rest (c, succeeded reply) f h = h
    after_round-Lasting x rest (c, skipped) f h = f c h
    after_round-Lasting x rest ((r, s, es), failed) f h = f _ (last.failure x r h)

    chat_loop-Lasting :
        (xs : List ProviderRoute) (c : Scene g d o t) → R c.0 → R (chat_loop g d o t xs c).0.0
    unfolding chat_loop
    chat_loop-Lasting [] c h = h
    chat_loop-Lasting (x ∷ xs) (r, s, es) h =
        after_round-Lasting x (chat_loop g d o t xs) (try_route g d o t x (r, s, es))
          (λ c k. chat_loop-Lasting xs c k) (try_route-Lasting x r s es h)

    chat_ordered-Lasting :
        (r : LlmRouter) (s : g.Store) (es : List Effect) → R r → R (chat_ordered g d o t r s es).0.0
    unfolding chat_ordered
    chat_ordered-Lasting r s es h =
        let ordered = ordered_routes d (g.headroom (g.refresh o.utc s)) o.monotonic t r in
        chat_loop-Lasting ordered.0 (ordered.1, g.refresh o.utc s, es)
          (last.grown r ordered.1
            (ordered_routes-Grown d (g.headroom (g.refresh o.utc s)) o.monotonic t r) h)

    pub look-Lasting :
        (healthy : Option Bool) (r r' : LlmRouter)
        → look_at_breaker g d o t healthy r ≡ some r'
        → R r
        → R r'
    unfolding look_at_breaker
    look-Lasting none r r' e h = elim (either_branch (not r.breaker_open) (some r) none e) [
      | inl k ↦ subst R (some_inj.0 k) h
      | inr k ↦ cc
    ]
    look-Lasting (some b) r r' e h =
        let reset = reset_breaker_if_healthy d.words b r in
        elim (either_branch (not r.breaker_open) (some r) (some reset) e) [
          | inl k ↦ subst R (some_inj.0 k) h
          | inr k ↦ subst R (some_inj.0 k) (last.reset b r h)
        ]

    pub chat-Lasting : (c : Scene g d o t) → R c.0 → R (chat g d o t c).0.0
    unfolding chat
    chat-Lasting (r, s, es) h = elim (Option-cases (look_at_breaker g d o t o.primary_healthy r)) [
      | inl e ↦ rw (e, chat) h
      | inr (r', e) ↦
          rw (e, chat) (chat_ordered-Lasting r' s es (look-Lasting o.primary_healthy r r' e h))
    ]
