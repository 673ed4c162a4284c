-- ===== src/Router/Chosen.antt =====
-- The routes that core/router.py orders for a turn.
use gestalt_workframe.Prelude.{
  ℕ, ◌≡◌, refl, sym, ap, ◌∙◌, String, Bool, true, not, Option, List, [], ◌∷◌, ◌==◌, text_key, inl,
  inr, Bool-cases, Option-cases, All, All-append, All-select, All-imp, select,
}
use gestalt_workframe.Prelude.Int.{ℤ}
use gestalt_workframe.Prelude.Assoc.{get}
use gestalt_workframe.Prelude.Sort.{All-sort_by}
use gestalt_workframe.Resolver.Catalog.{CatalogModel}
use gestalt_workframe.Resolver.Screen.{Candidate}
use gestalt_workframe.Resolver.Order.{Resolution}
use gestalt_workframe.Router.Routes.{ProviderRoute, is_cloud}
use gestalt_workframe.Router.State.{LlmRouter}
use gestalt_workframe.Router.Gate.{Turn, is_selectable}
use gestalt_workframe.Router.Synthesis.{
  Deployment, synthesized_base_route, is_not_synthesized, synthesize_loop, synthesize_cloud_routes,
}
use gestalt_workframe.Router.Capability.{
  is_ranked, lane_order, capability_order, turn_resolution, capability_routing_enabled,
}
use gestalt_workframe.Router.Order.{by_score, ordered_by, ordered_routes}
use gestalt_workframe.Router.Passed.{Passed, selectable_iff}

-- Nothing but the routes built from the catalog differs.
abbrev pub Grown : LlmRouter → LlmRouter → Type 0
Grown r r' = r' ≡ record r { synthesized_routes = r'.synthesized_routes }

base-Grown :
    (d : Deployment) (m : CatalogModel) (r : LlmRouter) → Grown r (synthesized_base_route d m r).1
unfolding synthesized_base_route
base-Grown d m r = elim (Option-cases (get m.id r.synthesized_routes)) [
  | inl e ↦
      rw e (elim (Bool-cases (d.openrouter_key == "")) [ inl k ↦ rw k refl | inr k ↦ rw k refl ])
  | inr (x, e) ↦ rw e refl
]

chained-Grown : (a b c : LlmRouter) → Grown a b → Grown b c → Grown a c
chained-Grown a b c h k =
    k ∙ ap (λ (x : LlmRouter). record x { synthesized_routes = c.synthesized_routes }) h

loop-Grown :
    (d : Deployment) (ids recommended : List String) (cs : List Candidate) (r : LlmRouter)
    → Grown r (synthesize_loop d ids recommended cs r).1
unfolding synthesize_loop
loop-Grown d ids recommended [] r = refl
loop-Grown d ids recommended (c ∷ cs) r = elim (Bool-cases (is_not_synthesized d ids c)) [
  | inl e ↦ rw e (loop-Grown d ids recommended cs r)
  | inr e ↦ rw e (
      chained-Grown r (synthesized_base_route d c.model r).1 _ (base-Grown d c.model r)
        (loop-Grown d ids recommended cs (synthesized_base_route d c.model r).1))
]

capability-Grown :
    (d : Deployment) (gate : LlmRouter → ProviderRoute → Bool) (cloud : List ProviderRoute)
    (task : Option String) (r : LlmRouter)
    → Grown r (capability_order d gate cloud task r).1
unfolding capability_order synthesize_cloud_routes
capability-Grown d gate cloud task r = loop-Grown d _ _ _ r

-- Ordering the routes of a turn changes nothing in the router but the routes that are built.
pub ordered_routes-Grown :
    (d : Deployment) (headroom : String → ℕ) (now : ℕ) (t : Turn) (r : LlmRouter)
    → Grown r (ordered_routes d headroom now t r).1
unfolding ordered_routes
ordered_routes-Grown d headroom now t r = elim (Bool-cases (capability_routing_enabled d)) [
  | inl e ↦ rw e (capability-Grown d _ _ _ r)
  | inr e ↦ rw e refl
]

All-selected :
    (p : ProviderRoute → Bool) (xs : List ProviderRoute) → All (λ x. p x ≡ true) (select p xs)
All-selected p [] = tt
All-selected p (x ∷ xs) = elim (Bool-cases (p x)) [
  | inl e ↦ rw e (e, All-selected p xs)
  | inr e ↦ rw e (All-selected p xs)
]

module _ (P : ProviderRoute → Type 0) where
  pub All-part :
      (p : ProviderRoute → Bool) (xs : List ProviderRoute) → All P xs → All P (select p xs)
  All-part p xs h =
      All-imp (λ x. P x × (p x ≡ true)) P (select p xs) (λ x k. k.0) (All-select P p xs h)

  pub All-lane_order :
      (d : Deployment) (resolution : Resolution) (xs : List ProviderRoute)
      → All P xs
      → All P (lane_order d resolution xs)
  unfolding lane_order
  All-lane_order d resolution xs h =
      All-append P _ _
        (All-sort_by _ P (select (is_ranked d resolution) xs)
          (All-part (is_ranked d resolution) xs h))
        (All-sort_by _ P _ (All-part (λ x. not (is_ranked d resolution x)) xs h))

  pub All-ordered_by :
      (strategy : String) (score : ProviderRoute → ℤ) (local cloud routes : List ProviderRoute)
      → All P local
      → All P cloud
      → All P routes
      → All P (ordered_by strategy score local cloud routes)
  unfolding ordered_by by_score
  All-ordered_by strategy score local cloud routes h k l =
      let a = All-sort_by _ P local h in
      let b = All-sort_by _ P cloud k in
      elim (Bool-cases (strategy == "prefer_local")) [
        | inl e ↦ rw e (All-append P _ _ a b)
        | inr e ↦ rw e (elim (Bool-cases (strategy == "prefer_cloud_quality")) [
          | inl f ↦ rw f (All-append P _ _ b a)
          | inr f ↦ rw f (All-sort_by _ P routes l)
        ])
      ]

passed :
    (d : Deployment) (now : ℕ) (t : Turn) (r : LlmRouter) (s : String) (xs : List ProviderRoute)
    → r.routing_strategy ≡ s
    → All (Passed d.words t s) (select (is_selectable d.words now t r) xs)
unfolding is_selectable
passed d now t r s xs same =
    All-imp _ (Passed d.words t s) (select (is_selectable d.words now t r) xs)
      (λ x k. rw (sym same) ((selectable_iff d.words now t r x).0 k).0)
      (All-selected (is_selectable d.words now t r) xs)

-- the routes that `_capability_order` is offered, and those that are built for it
abbrev pub cloud_of : Deployment → ℕ → Turn → LlmRouter → List ProviderRoute
cloud_of d now t r = select is_cloud (select (is_selectable d.words now t r) r.routes)

abbrev pub made_for : Deployment → ℕ → Turn → LlmRouter → List ProviderRoute × LlmRouter
made_for d now t r =
    let cloud = cloud_of d now t r in
    synthesize_cloud_routes d (turn_resolution d cloud t.task r) cloud t.task r

-- What holds of the configured routes that pass, and of the built ones that pass, holds of all ordered.
pub All-ordered_routes :
    (P : ProviderRoute → Type 0) (d : Deployment) (headroom : String → ℕ) (now : ℕ) (t : Turn)
    (r : LlmRouter)
    → All P (select (is_selectable d.words now t r) r.routes)
    → All P (select (is_selectable d.words now t (made_for d now t r).1) (made_for d now t r).0)
    → All P (ordered_routes d headroom now t r).0
unfolding ordered_routes capability_order
All-ordered_routes P d headroom now t r p q =
    let routes = select (is_selectable d.words now t r) r.routes in
    let local = All-part P (λ x. not (is_cloud x)) routes p in
    let cloud = All-part P is_cloud routes p in
    let built = All-lane_order P d _ _ (All-append P _ _ cloud q) in
    elim (Bool-cases (capability_routing_enabled d)) [
      | inl e ↦ rw e (All-ordered_by P _ _ _ _ _ local built (All-append P _ _ local built))
      | inr e ↦ rw e (All-ordered_by P _ _ _ _ _ local cloud p)
    ]

-- Every route that is ordered for a turn has passed the gate, also one that was built from the catalog.
pub ordered_routes-All :
    (d : Deployment) (headroom : String → ℕ) (now : ℕ) (t : Turn) (r : LlmRouter)
    → All (Passed d.words t r.routing_strategy) (ordered_routes d headroom now t r).0
unfolding capability_order
ordered_routes-All d headroom now t r =
    let P = Passed d.words t r.routing_strategy in
    let made = made_for d now t r in
    let grown = capability-Grown d (is_selectable d.words now t) (cloud_of d now t r) t.task r in
    All-ordered_routes P d headroom now t r (passed d now t r r.routing_strategy r.routes refl) (
      passed d now t made.1 r.routing_strategy made.0
        (ap (λ (x : LlmRouter). x.routing_strategy) grown))
