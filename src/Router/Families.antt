-- ===== src/Router/Families.antt =====
-- Local, cloud and catalog-derived routes in the order of core/router.py.
use gestalt_workframe.Prelude.{
  ℕ, ◌≡◌, refl, sym, ap, ◌∙◌, String, Bool, true, false, not, Option, none, some, List, [], ◌∷◌,
  ◌++◌, ◌==◌, text_key, if◌then◌else◌, inl, inr, Bool-cases, All, All-append, All-imp, IsIn, select,
  or_default,
}
use gestalt_workframe.Prelude.Int.{ℤ, pos, ltb_ℤ}
use gestalt_workframe.Prelude.Sort.{All-sort_by}
use gestalt_workframe.Resolver.Catalog.{CatalogModel}
use gestalt_workframe.Resolver.Screen.{Candidate}
use gestalt_workframe.Router.Routes.{ProviderRoute, is_listed, is_cloud}
use gestalt_workframe.Router.State.{LlmRouter}
use gestalt_workframe.Router.Gate.{Turn, is_policy_met, is_selectable}
use gestalt_workframe.Router.Synthesis.{
  Deployment, catalog_cost_tier, synthesized_policies, repriced, add_route, is_not_synthesized,
  synthesized_base_route, synthesize_loop, synthesize_cloud_routes,
}
use gestalt_workframe.Router.Capability.{capability_routing_enabled, capability_order}
use gestalt_workframe.Router.Order.{by_score, ordered_by, ordered_routes}
use gestalt_workframe.Router.Passed.{selectable_iff}
use gestalt_workframe.Router.Chosen.{All-part, All-lane_order, All-ordered_routes, made_for}

repriced_cloud :
    (names : List String) (m : CatalogModel) (x : ProviderRoute)
    → is_cloud (repriced names m x) ≡ true
unfolding is_cloud repriced catalog_cost_tier
repriced_cloud names m x = elim (Bool-cases (ltb_ℤ (pos 5000000) m.completion_price)) [
  | inl e ↦ rw e refl
  | inr e ↦ rw e refl
]

repriced_open :
    (names : List String) (m : CatalogModel) (x : ProviderRoute)
    → is_policy_met (some "local_only") (repriced names m x) ≡ false
unfolding is_policy_met is_listed repriced synthesized_policies
repriced_open names m x = elim (Bool-cases (ltb_ℤ (pos 5000000) m.completion_price)) [
  | inl e ↦ rw e refl
  | inr e ↦ rw e refl
]

module _ (P : ProviderRoute → Type 0)
    (fits : (names : List String) (m : CatalogModel) (x : ProviderRoute)
      → P (repriced names m x)) where
  All-add_route :
      (names : List String) (m : CatalogModel) (base : Option ProviderRoute)
      (rest : Option (List ProviderRoute) × LlmRouter)
      → All P (or_default rest.0 [])
      → All P (or_default (add_route names m base rest) [])
  unfolding add_route
  All-add_route names m none rest h = tt
  All-add_route names m (some x) (none, r) h = tt
  All-add_route names m (some x) (some xs, r) h = (fits names m x, h)

  All-synthesize_loop :
      (d : Deployment) (ids names : List String) (cs : List Candidate) (r : LlmRouter)
      → All P (or_default (synthesize_loop d ids names cs r).0 [])
  unfolding synthesize_loop
  All-synthesize_loop d ids names [] r = tt
  All-synthesize_loop d ids names (c ∷ cs) r = elim (Bool-cases (is_not_synthesized d ids c)) [
    | inl e ↦ rw e (All-synthesize_loop d ids names cs r)
    | inr e ↦
        let made = synthesized_base_route d c.model r in
        rw e (
          All-add_route names c.model made.0 (synthesize_loop d ids names cs made.1)
            (All-synthesize_loop d ids names cs made.1))
  ]

  All-made_for :
      (d : Deployment) (now : ℕ) (t : Turn) (r : LlmRouter) → All P (made_for d now t r).0
  unfolding synthesize_cloud_routes
  All-made_for d now t r = All-synthesize_loop d _ _ _ r

refused_select :
    (d : Deployment) (now : ℕ) (t : Turn) (r : LlmRouter) (xs : List ProviderRoute)
    → t.response_policy ≡ some "local_only"
    → All (λ x. (is_cloud x ≡ true) × (is_policy_met (some "local_only") x ≡ false)) xs
    → select (is_selectable d.words now t r) xs ≡ []
unfolding is_selectable
refused_select d now t r [] e h = refl
refused_select d now t r (x ∷ xs) e h = elim (Bool-cases (is_selectable d.words now t r x)) [
  | inl k ↦
      let met = ((selectable_iff d.words now t r x).0 k).0.policy_met h.0.0 in
      let clash : true ≡ false = sym met ∙ ap (λ p. is_policy_met p x) e ∙ h.0.1 in cc
  | inr k ↦ rw k (refused_select d now t r xs e h.1)
]

IsIn-self : (xs : List ProviderRoute) → All (λ x. IsIn x xs) xs
IsIn-self [] = tt
IsIn-self (x ∷ xs) = (inl refl, All-imp _ (λ y. IsIn y (x ∷ xs)) xs (λ y i. inr i) (IsIn-self xs))

-- For a turn whose policy is `local_only`, only configured routes are ordered, and none that the router
-- built from the catalog itself.
pub local_only_configured :
    (d : Deployment) (headroom : String → ℕ) (now : ℕ) (t : Turn) (r : LlmRouter)
    → t.response_policy ≡ some "local_only"
    → All (λ x. IsIn x r.routes) (ordered_routes d headroom now t r).0
local_only_configured d headroom now t r e =
    let P = λ (x : ProviderRoute). IsIn x r.routes in
    let made = made_for d now t r in
    All-ordered_routes P d headroom now t r (All-part P _ r.routes (IsIn-self r.routes)) (
      rw
        (refused_select d now t made.1 made.0 e (
          All-made_for _ (λ names m x. (repriced_cloud names m x, repriced_open names m x)) d now t
            r))
        tt)

-- First local routes, then cloud routes.
abbrev pub IsLocalFirst : List ProviderRoute → Type 0
IsLocalFirst xs =
    (local : List ProviderRoute) × (cloud : List ProviderRoute) × (xs ≡ local ++ cloud)
    × All (λ x. is_cloud x ≡ false) local
    × All (λ x. is_cloud x ≡ true) cloud

if-IsLocalFirst :
    (b : Bool) (p q : List ProviderRoute × LlmRouter)
    → IsLocalFirst p.0
    → IsLocalFirst q.0
    → IsLocalFirst (if b then p else q).0
if-IsLocalFirst true p q h k = h
if-IsLocalFirst false p q h k = k

ordered_by-IsLocalFirst :
    (strategy : String) (score : ProviderRoute → ℤ) (local cloud routes : List ProviderRoute)
    → (strategy == "prefer_local") ≡ true
    → All (λ x. is_cloud x ≡ false) local
    → All (λ x. is_cloud x ≡ true) cloud
    → IsLocalFirst (ordered_by strategy score local cloud routes)
unfolding ordered_by by_score
ordered_by-IsLocalFirst strategy score local cloud routes e h k =
    rw e (_, _, refl, All-sort_by _ _ local h, All-sort_by _ _ cloud k)

select-local :
    (xs : List ProviderRoute) → All (λ x. is_cloud x ≡ false) (select (λ x. not (is_cloud x)) xs)
select-local [] = tt
select-local (x ∷ xs) = elim (Bool-cases (is_cloud x)) [
  | inl e ↦ rw e (select-local xs)
  | inr e ↦ rw e (e, select-local xs)
]

select-cloud : (xs : List ProviderRoute) → All (λ x. is_cloud x ≡ true) (select is_cloud xs)
select-cloud [] = tt
select-cloud (x ∷ xs) = elim (Bool-cases (is_cloud x)) [
  | inl e ↦ rw e (e, select-cloud xs)
  | inr e ↦ rw e (select-cloud xs)
]

-- Under the strategy `prefer_local`, every local route is tried before any cloud route, whatever their
-- scores.
pub local_before_cloud :
    (d : Deployment) (headroom : String → ℕ) (now : ℕ) (t : Turn) (r : LlmRouter)
    → (r.routing_strategy == "prefer_local") ≡ true
    → IsLocalFirst (ordered_routes d headroom now t r).0
unfolding ordered_routes capability_order
local_before_cloud d headroom now t r e =
    let routes = select (is_selectable d.words now t r) r.routes in
    let made = made_for d now t r in
    let on_cloud = λ (x : ProviderRoute). is_cloud x ≡ true in
    let built = All-lane_order on_cloud d _ _ (
      All-append on_cloud _ _ (select-cloud routes) (
        All-part on_cloud (is_selectable d.words now t made.1) made.0
          (All-made_for on_cloud repriced_cloud d now t r))) in
    if-IsLocalFirst (capability_routing_enabled d) _ _
      (ordered_by-IsLocalFirst r.routing_strategy _ _ _ _ e (select-local routes) built)
      (ordered_by-IsLocalFirst r.routing_strategy _ _ _ _ e (select-local routes)
        (select-cloud routes))
