-- ===== src/Router/Breaker.antt =====
-- The circuit breaker of core/router.py over turns.
use gestalt_workframe.Prelude.{
  ℕ, ◌+◌, ◌≡◌, refl, ap, ◌∙◌, String, Bool, true, false, not, ◌&&◌, List, [], ◌∷◌, ◌==◌, text_key,
  arith, inl, inr, Bool-cases, All, leb, select,
}
use gestalt_workframe.Router.Routes.{Words, ProviderRoute, is_listed, is_provided_by}
use gestalt_workframe.Router.State.{
  LlmRouter, record_route_failure, reset_breaker_if_healthy, close_routes, route_key, errors_of,
}
use gestalt_workframe.Router.Gate.{route_temporarily_blocked}
use gestalt_workframe.Router.Chat.{SpendGate}
use gestalt_workframe.Router.Frame.{Lasting}
use gestalt_workframe.Router.Turns.{
  Round, run_chats, run_chats-Lasting, probed-health_cache, field-Lasting,
}

-- No route of the primary provider has the key.
abbrev pub NotPrimary : Words → String → LlmRouter → Type 0
NotPrimary w k r = All (λ x. (is_provided_by r.primary x && (route_key w x == k)) ≡ false) r.routes

is_listed-select :
    (k j : String) (ks : List String)
    → (j == k) ≡ false
    → is_listed k ks ≡ true
    → is_listed k (select (λ i. not (i == j)) ks) ≡ true
unfolding is_listed
is_listed-select k j [] e h = h
is_listed-select k j (i ∷ ks) e h = ground (
  arith,
  e,
  h,
  is_listed-select k j ks e,
  text_key.agree_iff i k,
  text_key.agree_iff i j,
  text_key.agree_iff j k,
)

module _ (w : Words) (k : String) where
  abbrev IsOpen : LlmRouter → Type 0
  IsOpen r = is_listed k r.route_breaker_open ≡ true

  closed-IsOpen :
      (xs : List ProviderRoute) (r : LlmRouter)
      → All (λ x. (is_provided_by r.primary x && (route_key w x == k)) ≡ false) xs
      → IsOpen r
      → IsOpen (close_routes w xs r)
  unfolding close_routes
  closed-IsOpen [] r n h = h
  closed-IsOpen (x ∷ xs) r n h = elim (Bool-cases (is_provided_by r.primary x)) [
    | inl e ↦
        rw (e, close_routes)
          (closed-IsOpen xs _ n.1
            (is_listed-select k (route_key w x) r.route_breaker_open (ground (arith, n.0, e)) h))
    | inr e ↦ rw (e, close_routes) (closed-IsOpen xs r n.1 h)
  ]

  failed-IsOpen :
      (x : ProviderRoute) (r : LlmRouter) → IsOpen r → IsOpen (record_route_failure w x r)
  unfolding record_route_failure is_listed
  failed-IsOpen x r h =
      elim (Bool-cases (leb r.error_threshold (errors_of (route_key w x) r + 1))) [
        | inl e ↦ rw e (ground (arith, h))
        | inr e ↦ rw e h
      ]

-- A route that no primary provider serves, once its breaker has opened.
pub record Stuck (w : Words) (k : String) (p : ℕ) (xs : List ProviderRoute) (r : LlmRouter)
    : Type 0 where
  pub same_primary : r.primary ≡ p
  pub same_routes : r.routes ≡ xs
  pub stays_open : IsOpen w k r

-- what a step of the breaker keeps
module _ (w : Words) (k : String) (p : ℕ) (xs : List ProviderRoute)
    (others : All (λ x. (is_provided_by p x && (route_key w x == k)) ≡ false) xs) where
  Stuck-same :
      (r r' : LlmRouter)
      → r'.primary ≡ r.primary
      → r'.routes ≡ r.routes
      → (IsOpen w k r → IsOpen w k r')
      → Stuck w k p xs r
      → Stuck w k p xs r'
  Stuck-same r r' e f h s = record {
    same_primary = e ∙ s.same_primary;
    same_routes = f ∙ s.same_routes;
    stays_open = h s.stays_open;
  }

  primary_lasts : (a : ℕ) → Lasting w (λ r. r.primary ≡ a)
  primary_lasts a = field-Lasting w (λ r. r.primary) (λ r a b c e h y. refl) a

  routes_last : (a : List ProviderRoute) → Lasting w (λ r. r.routes ≡ a)
  routes_last a = field-Lasting w (λ r. r.routes) (λ r a b c e h y. refl) a

  reset-IsOpen :
      (healthy : Bool) (r : LlmRouter)
      → Stuck w k p xs r
      → IsOpen w k (reset_breaker_if_healthy w healthy r)
  unfolding reset_breaker_if_healthy
  reset-IsOpen healthy r s = elim (Bool-cases (r.breaker_open && healthy)) [
    | inl e ↦
        rw (e, reset_breaker_if_healthy, s.same_routes)
          (closed-IsOpen w k xs _ (rw s.same_primary others) s.stays_open)
    | inr e ↦ rw (e, reset_breaker_if_healthy) s.stays_open
  ]

  Stuck-Lasting : Lasting w (Stuck w k p xs)
  Stuck-Lasting = record {
    grown = λ r r' e s.
        Stuck-same r r' (ap (λ (y : LlmRouter). y.primary) e) (ap (λ (y : LlmRouter). y.routes) e)
          (λ h. rw (ap (λ (y : LlmRouter). y.route_breaker_open) e) h) s;
    probed_health = λ now q x r s.
        let e = probed-health_cache w now q x r in
        Stuck-same r _ (ap (λ (y : LlmRouter). y.primary) e) (ap (λ (y : LlmRouter). y.routes) e)
          (λ h. rw (ap (λ (y : LlmRouter). y.route_breaker_open) e) h) s;
    failure = λ x r s.
        Stuck-same r _ ((primary_lasts r.primary).failure x r refl)
          ((routes_last r.routes).failure x r refl) (failed-IsOpen w k x r) s;
    reset = λ healthy r s.
        Stuck-same r _ ((primary_lasts r.primary).reset healthy r refl)
          ((routes_last r.routes).reset healthy r refl) (λ h. reset-IsOpen healthy r s) s;
  }

-- Once the breaker of a route that the primary provider does not serve has opened, no turns of `chat` close
-- it, even if every later probe and call succeeds: after any number of them the route is still blocked.
-- This is said of a route whose key no route of the primary provider has.
pub breaker_never_closes :
    (g : SpendGate) (w : Words) (cs : List Round) (r : LlmRouter) (s : g.Store) (x : ProviderRoute)
    → is_listed (route_key w x) r.route_breaker_open ≡ true
    → NotPrimary w (route_key w x) r
    → route_temporarily_blocked w (run_chats g w cs r s).0 x ≡ true
unfolding route_temporarily_blocked
breaker_never_closes g w cs r s x h n =
    let k = route_key w x in
    let start : Stuck w k r.primary r.routes r = record {
      same_primary = refl;
      same_routes = refl;
      stays_open = h;
    } in
    let end =
      run_chats-Lasting g w (Stuck w k r.primary r.routes) (Stuck-Lasting w k r.primary r.routes n)
        cs r s start in
    rw end.stays_open refl
