-- ===== src/Router/Orderly.antt =====
-- The effects of `chat` of core/router.py: which providers it calls, and after which answer of the budget.
use gestalt_workframe.Prelude.{
  ℕ, ◌≡◌, refl, String, Bool, true, false, not, ◌&&◌, Option, none, some, List, [], ◌∷◌,
  if◌then◌else◌, inl, inr, Bool-cases, All,
}
use gestalt_workframe.Budget.Gate.{Request, Usage}
use gestalt_workframe.Router.Routes.{ProviderRoute, is_cloud, has_provider}
use gestalt_workframe.Router.Slots.{can_start, started}
use gestalt_workframe.Router.State.{LlmRouter, local_route_callable, record_route_failure}
use gestalt_workframe.Router.Gate.{route_allowed}
use gestalt_workframe.Router.Gate.{Turn}
use gestalt_workframe.Router.Synthesis.{Deployment}
use gestalt_workframe.Router.Order.{ordered_routes}
use gestalt_workframe.Router.Passed.{Passed}
use gestalt_workframe.Router.Chosen.{ordered_routes-All}
use gestalt_workframe.Router.Chat.{
  SpendGate, Surroundings, Reply, Effect, reserves, calls, succeeded, skipped, failed, ChatAnswer,
  Scene, Tried, book, cloud_chat, spend, try_cloud, try_local, release_slot, with_slot, try_route,
  after_round, chat_loop, chat_ordered, spend_request, reply_usage,
}

-- The last effect is that the budget admitted a call for the route.
abbrev pub IsAdmitted : ProviderRoute → List Effect → Type 0
IsAdmitted route es = (rest : List Effect) × (es ≡ reserves route (some true) ∷ rest)

-- Each call goes to a route of the kind, of a local one with no limit, or right after the budget has
-- admitted it, with a limit, to a cloud one of the kind that the budget admits.
abbrev pub IsPaid : (ProviderRoute → Type 0) → (ProviderRoute → Type 0) → List Effect → Type 0
IsPaid Q C [] = Unit
IsPaid Q C (reserves route answer ∷ es) = IsPaid Q C es
IsPaid Q C (calls route none ∷ es) = (is_cloud route ≡ false) × Q route × IsPaid Q C es
IsPaid Q C (calls route (some n) ∷ es) =
    (is_cloud route ≡ true) × Q route × C route × IsAdmitted route es × IsPaid Q C es

-- A property of a budget's store that its operations keep, and what a store with it admits.
pub record Upkeep (g : SpendGate) (I : g.Store → Type 0) (C : ProviderRoute → Type 0) : Type 0 where
  pub refresh : (now : ℕ) (s : g.Store) → I s → I (g.refresh now s)
  pub reserve : (now : ℕ) (p : String) (q : Request) (s : g.Store) → I s → I (g.reserve now p q s).0
  pub record_usage :
      (now : ℕ) (p : String) (u : Usage) (s : g.Store) → I s → I (g.record_usage now p u s).0
  pub admits :
      (now : ℕ) (x : ProviderRoute) (q : Request) (s : g.Store)
      → I s
      → (g.reserve now x.provider_budget_id q s).1 ≡ some true
      → C x

module _ (g : SpendGate) (d : Deployment) (o : Surroundings) (t : Turn) (I : g.Store → Type 0)
    (Q C : ProviderRoute → Type 0) (up : Upkeep g I C) where
  abbrev pub IsOrderly : Scene g d o t → Type 0
  IsOrderly (r, s, es) = I s × IsPaid Q C es

  book-IsOrderly :
      (x : ProviderRoute) (reply : Reply) (r : LlmRouter) (es : List Effect) (p : g.Store × Bool)
      → IsOrderly (r, p.0, es)
      → IsOrderly (book g d o t x reply r es p).0
  unfolding book
  book-IsOrderly x reply r es (s, true) h = h
  book-IsOrderly x reply r es (s, false) h = h

  cloud_chat-IsOrderly :
      (x : ProviderRoute) (r : LlmRouter) (s : g.Store) (es : List Effect) (reply : Option Reply)
      → is_cloud x ≡ true
      → Q x
      → C x
      → IsAdmitted x es
      → IsOrderly (r, s, es)
      → IsOrderly (cloud_chat g d o t x (r, s, es) reply).0
  unfolding cloud_chat
  cloud_chat-IsOrderly x r s es none on q c a h = (h.0, (on, q, c, a, h.1))
  cloud_chat-IsOrderly x r s es (some reply) on q c a h =
      book-IsOrderly x reply r _
        (g.record_usage (o.utc_at x) x.provider_budget_id (reply_usage t x reply) s)
        (
          up.record_usage (o.utc_at x) x.provider_budget_id (reply_usage t x reply) s h.0,
          (on, q, c, a, h.1),
        )

  spend-IsOrderly :
      (x : ProviderRoute) (r : LlmRouter) (es : List Effect) (p : g.Store × Option Bool)
      → is_cloud x ≡ true
      → Q x
      → (p.1 ≡ some true → C x)
      → IsOrderly (r, p.0, es)
      → IsOrderly (spend g d o t x r es p).0
  unfolding spend
  spend-IsOrderly x r es (s, none) on q c h = h
  spend-IsOrderly x r es (s, some false) on q c h = h
  spend-IsOrderly x r es (s, some true) on q c h =
      cloud_chat-IsOrderly x r s (reserves x (some true) ∷ es) (o.reply x) on q (c refl) (es, refl)
        h

  try_cloud-IsOrderly :
      (x : ProviderRoute) (r : LlmRouter) (s : g.Store) (es : List Effect)
      → is_cloud x ≡ true
      → Q x
      → IsOrderly (r, s, es)
      → IsOrderly (try_cloud g d o t x (r, s, es)).0
  unfolding try_cloud
  try_cloud-IsOrderly x r s es on q h =
      let q' = spend_request (g.output_cap s) t x in
      let may = route_allowed d.words r t.cloud_allowed t.response_policy none x in
      elim (Bool-cases (is_cloud x && may)) [
        | inl e ↦ rw e (
            spend-IsOrderly x r es (g.reserve (o.utc_at x) x.provider_budget_id q' s) on q
              (up.admits (o.utc_at x) x q' s h.0)
              (up.reserve (o.utc_at x) x.provider_budget_id q' s h.0, h.1))
        | inr e ↦ rw e h
      ]

  try_local-IsOrderly :
      (x : ProviderRoute) (r : LlmRouter) (s : g.Store) (es : List Effect) (reply : Option Reply)
      → is_cloud x ≡ false
      → Q x
      → IsOrderly (r, s, es)
      → IsOrderly (try_local g d o t x (r, s, es) reply).0
  unfolding try_local
  try_local-IsOrderly x r s es none off q h = (h.0, (off, q, h.1))
  try_local-IsOrderly x r s es (some reply) off q h = (h.0, (off, q, h.1))

  release_slot-IsOrderly :
      (x : ProviderRoute) (p : Tried g d o t)
      → IsOrderly p.0
      → IsOrderly (release_slot g d o t x p).0
  unfolding release_slot
  release_slot-IsOrderly x ((r, s, es), a) h = h

  if-IsOrderly :
      (b : Bool) (x y : Tried g d o t)
      → (b ≡ true → IsOrderly x.0)
      → (b ≡ false → IsOrderly y.0)
      → IsOrderly (if b then x else y).0
  if-IsOrderly true x y h k = h refl
  if-IsOrderly false x y h k = k refl

  pub with_slot-IsOrderly :
      (x : ProviderRoute) (r : LlmRouter) (s : g.Store) (es : List Effect)
      → Q x
      → IsOrderly (r, s, es)
      → IsOrderly (with_slot g d o t x (r, s, es)).0
  unfolding with_slot
  with_slot-IsOrderly x r s es q h =
      let busy = record r { active = started (is_cloud x) r.active } in
      let on_cloud = try_cloud g d o t x (busy, s, es) in
      let on_local = try_local g d o t x (busy, s, es) (o.reply x) in
      if-IsOrderly (not (can_start r.concurrency (is_cloud x) r.active)) ((r, s, es), skipped) _
        (λ e. h)
        (λ e. release_slot-IsOrderly x (if is_cloud x then on_cloud else on_local) (
          if-IsOrderly (is_cloud x) on_cloud on_local (λ k. try_cloud-IsOrderly x busy s es k q h)
            (λ k. try_local-IsOrderly x busy s es (o.reply x) k q h)))

  try_route-IsOrderly :
      (x : ProviderRoute) (r : LlmRouter) (s : g.Store) (es : List Effect)
      → Q x
      → IsOrderly (r, s, es)
      → IsOrderly (try_route g d o t x (r, s, es)).0
  unfolding try_route
  try_route-IsOrderly x r s es q h =
      let called = local_route_callable d.words (o.monotonic_at x) (o.probe x) x r in
      elim (Bool-cases (has_provider x)) [
        | inl e ↦ rw e (elim (Bool-cases called.0) [
          | inl k ↦ rw k (with_slot-IsOrderly x called.1 s es q h)
          | inr k ↦ rw k h
        ])
        | inr e ↦ rw e h
      ]

  after_round-IsOrderly :
      (x : ProviderRoute) (rest : Scene g d o t → Scene g d o t × ChatAnswer) (p : Tried g d o t)
      → ((c : Scene g d o t) → IsOrderly c → IsOrderly (rest c).0)
      → IsOrderly p.0
      → IsOrderly (after_round g d o t x rest p).0
  unfolding after_round
  after_round-IsOrderly x rest (c, succeeded reply) f h = h
  after_round-IsOrderly x rest (c, skipped) f h = f c h
  after_round-IsOrderly x rest ((r, s, es), failed) f h =
      f (record_route_failure d.words x r, s, es) h

  chat_loop-IsOrderly :
      (xs : List ProviderRoute) (c : Scene g d o t)
      → All Q xs
      → IsOrderly c
      → IsOrderly (chat_loop g d o t xs c).0
  unfolding chat_loop
  chat_loop-IsOrderly [] c q h = h
  chat_loop-IsOrderly (x ∷ xs) (r, s, es) q h =
      after_round-IsOrderly x (chat_loop g d o t xs) (try_route g d o t x (r, s, es))
        (λ c k. chat_loop-IsOrderly xs c q.1 k) (try_route-IsOrderly x r s es q.0 h)

-- the gate's keepers after ordering, and the whole of `chat`
module _ (g : SpendGate) (d : Deployment) (o : Surroundings) (t : Turn) (I : g.Store → Type 0)
    (C : ProviderRoute → Type 0) (up : Upkeep g I C) where
  pub chat_ordered-IsPaid :
      (r : LlmRouter) (s : g.Store)
      → I s
      → I (chat_ordered g d o t r s []).0.1
        × IsPaid (Passed d.words t r.routing_strategy) C (chat_ordered g d o t r s []).0.2
  unfolding chat_ordered
  chat_ordered-IsPaid r s h =
      let s' = g.refresh o.utc s in
      let ordered = ordered_routes d (g.headroom s') o.monotonic t r in
      chat_loop-IsOrderly g d o t I (Passed d.words t r.routing_strategy) C up ordered.0
        (ordered.1, s', []) (ordered_routes-All d (g.headroom s') o.monotonic t r)
        (up.refresh o.utc s h, tt)
