-- ===== src/Resolver/Shortlist.antt =====
-- What the shortlist of `resolve_lane` of core/model_resolver.py holds.
use gestalt_workframe.Prelude.{
  ℕ, suc, ◌-◌, ◌*◌, ◌≤◌, ◌<◌, ◌≡◌, refl, inl, inr, sym, ap, String, true, false, Option, List, [],
  ◌∷◌, arith, All, All-imp, All-select, All-IsIn, All-take, IsIn, IsIn-select, Bool-cases,
  Option-cases, take, ltb, select,
}
use mathlib.Core.Path.{subst}
use gestalt_workframe.Prelude.Int.{ℤ, pos, negsuc, pos_part, ltb_ℤ}
use gestalt_workframe.Prelude.Sort.{IsSortedBy, All-sort_by, IsIn-sort_by}
use gestalt_workframe.Resolver.Catalog.{Python, CatalogModel, Lane}
use gestalt_workframe.Resolver.Screen.{Candidate, block_reason, candidate, turn_cost}
use gestalt_workframe.Resolver.Clears.{Clears, block_reason_iff}
use gestalt_workframe.Resolver.Order.{
  Tier, best, auto, fast, cheap, order, gated, is_gated, clears_gate, best_margin, screened,
  shortlist_length, resolve_lane, comes_first,
}
use gestalt_workframe.Resolver.Ahead.{Ahead, Ahead-refl, IsCosted, order-IsSortedBy}

-- The share of the best margin that the tier asks for.
abbrev pub IsInShare : Tier → ℕ → Candidate → Type 0
IsInShare best top c = Unit
IsInShare auto top c = 35 * top ≤ 100 * c.margin
IsInShare fast top c = 35 * top ≤ 100 * c.margin
IsInShare cheap top c = Unit

shortlist_length-suc : (lane : Lane) → (n : ℕ) × (shortlist_length lane ≡ suc n)
unfolding shortlist_length
shortlist_length-suc lane = (shortlist_length lane - 1, ground arith)

positive_cost : (z : ℤ) → ltb_ℤ (pos 0) z ≡ true → 0 < pos_part z
positive_cost (pos n) h = ground arith
positive_cost (negsuc n) h = ground arith

gate_holds :
    (P : Candidate → Type 0) (cs : List Candidate)
    → All P cs
    → All
        (λ (c : Candidate). P c × (35 * best_margin cs ≤ 100 * c.margin))
        (select (clears_gate (best_margin cs)) cs)
unfolding clears_gate
gate_holds P cs h =
    All-imp _ _ (select (clears_gate (best_margin cs)) cs) (λ c k. (k.0, ground (arith, k.1)))
      (All-select P (clears_gate (best_margin cs)) cs h)

no_gate :
    (P : Candidate → Type 0) (cs : List Candidate)
    → All P cs
    → ltb 0 (best_margin cs) ≡ false
    → All (λ (c : Candidate). P c × (35 * best_margin cs ≤ 100 * c.margin)) cs
no_gate P cs h e = All-imp P _ cs (λ c k. (k, ground (arith, e))) h

All-gated :
    (P : Candidate → Type 0) (t : Tier) (cs : List Candidate)
    → All P cs
    → All (λ c. P c × IsInShare t (best_margin cs) c) (gated t cs)
unfolding gated is_gated
All-gated P best cs h = All-imp P _ cs (λ c k. (k, tt)) h
All-gated P cheap cs h = All-imp P _ cs (λ c k. (k, tt)) h
All-gated P auto cs h = elim (Bool-cases (ltb 0 (best_margin cs))) [
  | inl e ↦ rw e (gate_holds P cs h)
  | inr e ↦ rw e (no_gate P cs h e)
]
All-gated P fast cs h = elim (Bool-cases (ltb 0 (best_margin cs))) [
  | inl e ↦ rw e (gate_holds P cs h)
  | inr e ↦ rw e (no_gate P cs h e)
]

IsIn-gated :
    (t : Tier) (c : Candidate) (cs : List Candidate)
    → IsInShare t (best_margin cs) c
    → IsIn c cs
    → IsIn c (gated t cs)
unfolding gated is_gated clears_gate
IsIn-gated best c cs h i = i
IsIn-gated cheap c cs h i = i
IsIn-gated auto c cs h i = elim (Bool-cases (ltb 0 (best_margin cs))) [
  | inl e ↦ rw e (IsIn-select (clears_gate (best_margin cs)) c cs (ground arith) i)
  | inr e ↦ rw e i
]
IsIn-gated fast c cs h i = elim (Bool-cases (ltb 0 (best_margin cs))) [
  | inl e ↦ rw e (IsIn-select (clears_gate (best_margin cs)) c cs (ground arith) i)
  | inr e ↦ rw e i
]

module _ (py : Python) (now : ℕ) (benched_ids : List String) (latencies : String → Option ℕ)
    (lane : Lane) where
  -- What a candidate for the lane is.
  abbrev pub IsQualified : List CatalogModel → Candidate → Type 0
  IsQualified catalog c =
      IsIn c.model catalog
      × Clears py now benched_ids lane c.model
      × (c ≡ candidate lane latencies c.model)

  IsQualified-IsCosted :
      (catalog : List CatalogModel) (c : Candidate) → IsQualified catalog c → IsCosted c
  unfolding candidate turn_cost
  IsQualified-IsCosted catalog c q =
      subst IsCosted (sym q.2) (positive_cost (turn_cost lane c.model) q.1.priced)

  screened-IsQualified :
      (catalog : List CatalogModel)
      → All (IsQualified catalog) (screened py now benched_ids latencies lane catalog).0
  unfolding screened candidate
  screened-IsQualified [] = tt
  screened-IsQualified (m ∷ ms) =
      let later =
        All-imp (IsQualified ms) (IsQualified (m ∷ ms)) _ (λ c q. (inr q.0, q.1, q.2))
          (screened-IsQualified ms) in
      elim (Option-cases (block_reason py now benched_ids lane m)) [
        | inl e ↦
            rw (e, All) ((inl refl, (block_reason_iff py now benched_ids lane m).0 e, refl), later)
        | inr (r, e) ↦ rw (e, All) later
      ]

  screened_complete :
      (catalog : List CatalogModel) (m : CatalogModel)
      → IsIn m catalog
      → Clears py now benched_ids lane m
      → IsIn (candidate lane latencies m) (screened py now benched_ids latencies lane catalog).0
  unfolding screened
  screened_complete [] m i h = elim i [ ]
  screened_complete (x ∷ xs) m (inl e) h =
      rw
        (
          (block_reason_iff py now benched_ids lane x).1
              (subst (Clears py now benched_ids lane) e h),
          IsIn,
        )
        (inl (ap (candidate lane latencies) e))
  screened_complete (x ∷ xs) m (inr i) h =
      elim (Option-cases (block_reason py now benched_ids lane x)) [
        | inl e ↦ rw (e, IsIn) (inr (screened_complete xs m i h))
        | inr (r, e) ↦ rw (e, IsIn) (screened_complete xs m i h)
      ]

  -- Every candidate of the shortlist is a model of the catalog that clears the lane, with its cost and
  -- margin as the lane gives them, and reaches the share of the best margin that its tier asks for.
  pub shortlist_sound :
      (t : Tier) (catalog : List CatalogModel)
      → let r = resolve_lane py now benched_ids latencies t lane catalog in
        All (λ c. IsQualified catalog c × IsInShare t r.best_available_margin c) r.candidates
  unfolding resolve_lane order
  shortlist_sound t catalog =
      let cs = (screened py now benched_ids latencies lane catalog).0 in
      let P : Candidate → Type 0 = λ c. IsQualified catalog c × IsInShare t (best_margin cs) c in
      All-take P (shortlist_length lane) (order t (gated t cs)) (
        All-sort_by (comes_first t) P (gated t cs)
          (All-gated (IsQualified catalog) t cs (screened-IsQualified catalog)))

  led :
      (t : Tier) (x : Candidate) (n : ℕ) (cs : List Candidate)
      → IsIn x cs
      → IsSortedBy (Ahead t) cs
      → (c : Candidate) × (rest : List Candidate) × (take (suc n) cs ≡ c ∷ rest) × Ahead t c x
  led t x n [] i h = elim i [ ]
  led t x n (c ∷ cs) (inl e) h = (c, take n cs, refl, subst (Ahead t c) (sym e) (Ahead-refl t c))
  led t x n (c ∷ cs) (inr i) h = (c, take n cs, refl, All-IsIn (Ahead t c) x cs h.0 i)

  -- Where some model of the catalog clears the lane and reaches the tier's share of the best margin, the
  -- shortlist is not empty, and its first candidate does at least as well as that model by the objective
  -- of the tier.
  pub shortlist_led :
      (t : Tier) (catalog : List CatalogModel) (m : CatalogModel)
      → IsIn m catalog
      → Clears py now benched_ids lane m
      → IsInShare t
          (resolve_lane py now benched_ids latencies t lane catalog).best_available_margin
          (candidate lane latencies m)
      → (c : Candidate) × (rest : List Candidate) × ((resolve_lane py now benched_ids latencies t
            lane catalog).candidates
          ≡ c ∷ rest)
        × Ahead t c (candidate lane latencies m)
  unfolding resolve_lane order
  shortlist_led t catalog m here clears share =
      let cs = (screened py now benched_ids latencies lane catalog).0 in
      let x = candidate lane latencies m in
      let present =
        IsIn-sort_by (comes_first t) x (gated t cs)
          (IsIn-gated t x cs share (screened_complete catalog m here clears)) in
      let costed =
        All-imp _ IsCosted (gated t cs) (λ c q. IsQualified-IsCosted catalog c q.0)
          (All-gated (IsQualified catalog) t cs (screened-IsQualified catalog)) in
      let (n, long) = shortlist_length-suc lane in
      rw long (led t x n (order t (gated t cs)) present (order-IsSortedBy t (gated t cs) costed))
