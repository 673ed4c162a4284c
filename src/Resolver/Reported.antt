-- ===== src/Resolver/Reported.antt =====
-- The rejections that `resolve_lane` of core/model_resolver.py reports.
use gestalt_workframe.Prelude.{
  ℕ, ◌≡◌, refl, inl, inr, ap, ◌∙◌, sym, String, Option, some, List, [], ◌∷◌, ◌++◌, IsIn,
  Option-cases,
}
use gestalt_workframe.Resolver.Catalog.{Python, CatalogModel, Lane}
use gestalt_workframe.Resolver.Screen.{Reason, Rejection, block_reason}
use gestalt_workframe.Resolver.Order.{Tier, screened, resolve_lane}

abbrev pub rejection : CatalogModel → Reason → Rejection
rejection m r = record { model_id = m.id; reason = r }

IsIn-append : (x : Rejection) (xs ys : List Rejection) → IsIn x xs → IsIn x (xs ++ ys)
IsIn-append x [] ys i = elim i [ ]
IsIn-append x (y ∷ xs) ys (inl e) = inl e
IsIn-append x (y ∷ xs) ys (inr i) = inr (IsIn-append x xs ys i)

module _ (py : Python) (now : ℕ) (benched_ids : List String) (latencies : String → Option ℕ)
    (lane : Lane) where
  reported_head :
      (x : CatalogModel) (xs : List CatalogModel) (r : Reason)
      → block_reason py now benched_ids lane x ≡ some r
      → (screened py now benched_ids latencies lane (x ∷ xs)).1
        ≡ rejection x r ∷ (screened py now benched_ids latencies lane xs).1
  unfolding screened
  reported_head x xs r h = rw (h, screened) refl

  screened_reported :
      (catalog : List CatalogModel) (m : CatalogModel) (r : Reason)
      → IsIn m catalog
      → block_reason py now benched_ids lane m ≡ some r
      → IsIn (rejection m r) (screened py now benched_ids latencies lane catalog).1
  unfolding screened
  screened_reported [] m r i h = elim i [ ]
  screened_reported (x ∷ xs) m r (inl e) h =
      rw (reported_head x xs r (ap (block_reason py now benched_ids lane) (sym e) ∙ h))
        (inl (ap (λ k. rejection k r) e))
  screened_reported (x ∷ xs) m r (inr i) h =
      elim (Option-cases (block_reason py now benched_ids lane x)) [
        | inl e ↦ rw (e, IsIn) (screened_reported xs m r i h)
        | inr (q, e) ↦ rw (e, IsIn) (inr (screened_reported xs m r i h))
      ]

  -- Every model of the catalog that a filter drops is reported under its id with the first reason that
  -- dropped it, whatever the tier.
  pub rejection_reported :
      (t : Tier) (catalog : List CatalogModel) (m : CatalogModel) (r : Reason)
      → IsIn m catalog
      → block_reason py now benched_ids lane m ≡ some r
      → IsIn (rejection m r) (resolve_lane py now benched_ids latencies t lane catalog).rejections
  unfolding resolve_lane
  rejection_reported t catalog m r i h =
      IsIn-append (rejection m r) _ _ (screened_reported catalog m r i h)
