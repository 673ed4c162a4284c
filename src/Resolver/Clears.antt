-- ===== src/Resolver/Clears.antt =====
-- What a model must meet to serve a lane of core/model_resolver.py.
use gestalt_workframe.Prelude.{
  ℕ, ◌≤◌, ◌≡◌, ◌≢◌, ◌↔◌, ◌⊎◌, refl, String, true, false, not, Option, none, some, List, [], ◌∷◌,
  any, All, arith, ◌==◌, text_key, if◌then◌else◌,
}
use gestalt_workframe.Prelude.Int.{pos, ltb_ℤ}
use gestalt_workframe.Resolver.Catalog.{
  Python, CatalogModel, Lane, is_free_tier, is_batch_tier, is_router_pseudo_model, is_preview,
  supports, is_expired,
}
use gestalt_workframe.Resolver.Screen.{
  block_reason, Reason, floor_reason, or_else, above_ceiling, turn_cost,
}

-- A floor that is declared asks for a published index that reaches it.
abbrev pub AtLeast : Option ℕ → Option ℕ → Type 0
AtLeast none value = Unit
AtLeast (some floor) none = ⊥
AtLeast (some floor) (some value) = floor ≤ value

pub record Clears (py : Python) (now : ℕ) (benched_ids : List String) (lane : Lane)
    (m : CatalogModel) : Type 0 where
  pub not_free : is_free_tier py m ≡ false
  pub not_batch : is_batch_tier py m ≡ false
  pub not_router : is_router_pseudo_model py m ≡ false
  pub preview_allowed : (is_preview py m ≡ false) ⊎ (lane.allow_preview ≡ true)
  pub not_benched : All (λ b. b ≢ m.id) benched_ids
  pub supported : All (λ p. supports m p ≡ true) lane.must
  pub context : lane.min_context_tokens ≤ m.context_length
  pub not_expired : is_expired py now m ≡ false
  pub under_ceiling : above_ceiling lane m ≡ false
  pub intelligent : AtLeast lane.min_intelligence m.intelligence_index
  pub coding : AtLeast lane.min_coding m.coding_index
  pub agentic : AtLeast lane.min_agentic m.agentic_index
  pub priced : ltb_ℤ (pos 0) (turn_cost lane m) ≡ true

none_benched :
    (s : String) (xs : List String) → (any (λ b. b == s) xs ≡ false) ↔ All (λ b. b ≢ s) xs
none_benched s [] = ((λ h. tt), λ h. refl)
none_benched s (x ∷ xs) = ground (arith, none_benched s xs, text_key.agree_iff x s)

All-supported :
    (m : CatalogModel) (xs : List String)
    → (any (λ p. not (supports m p)) xs ≡ false) ↔ All (λ p. supports m p ≡ true) xs
All-supported m [] = ((λ h. tt), λ h. refl)
All-supported m (x ∷ xs) = ground (arith, All-supported m xs)

floor_reason_iff :
    (a b : Reason) (floor value : Option ℕ)
    → (floor_reason a b floor value ≡ none) ↔ AtLeast floor value
unfolding floor_reason
floor_reason_iff a b none value = ((λ h. tt), λ h. refl)
floor_reason_iff a b (some f) none = ground arith
floor_reason_iff a b (some f) (some v) = ground arith

or_else_iff : (a b : Option Reason) → (or_else a b ≡ none) ↔ ((a ≡ none) × (b ≡ none))
unfolding or_else
or_else_iff none b = ((λ h. (refl, h)), λ h. h.1)
or_else_iff (some r) b = ground arith

-- `resolve_lane` drops a model for no reason exactly when it is neither a free nor a batch variant nor
-- a router, is no preview unless the lane allows them, is not benched, supports every parameter that the
-- lane requires, has the context that it asks for, is not expired, is not above its price ceiling,
-- publishes an index that reaches each floor that the lane declares, and costs more than nothing.
pub block_reason_iff :
    (py : Python) (now : ℕ) (benched_ids : List String) (lane : Lane) (m : CatalogModel)
    → (block_reason py now benched_ids lane m ≡ none) ↔ Clears py now benched_ids lane m
unfolding block_reason
block_reason_iff py now benched_ids lane m =
    let i =
      floor_reason Reason.no_intelligence Reason.intelligence_below lane.min_intelligence
        m.intelligence_index in
    let c = floor_reason Reason.no_coding Reason.coding_below lane.min_coding m.coding_index in
    let a = floor_reason Reason.no_agentic Reason.agentic_below lane.min_agentic m.agentic_index in
    let cost = ltb_ℤ (pos 0) (turn_cost lane m) in
    let priced = if cost then none else some Reason.cost_not_positive in
    let f1 = none_benched m.id benched_ids in
    let f2 = All-supported m lane.must in
    let f3 = or_else_iff (or_else i (or_else c a)) priced in
    let f4 = or_else_iff i (or_else c a) in
    let f5 = or_else_iff c a in
    let f6 =
      floor_reason_iff Reason.no_intelligence Reason.intelligence_below lane.min_intelligence
        m.intelligence_index in
    let f7 = floor_reason_iff Reason.no_coding Reason.coding_below lane.min_coding m.coding_index in
    let f8 =
      floor_reason_iff Reason.no_agentic Reason.agentic_below lane.min_agentic m.agentic_index in
    (
      λ h. ground (arith, f1, f2, f3, f4, f5, f6, f7, f8),
      λ h. ground (arith, f1, f2, f3, f4, f5, f6, f7, f8, h),
    )
