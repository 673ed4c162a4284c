-- ===== src/Budget/Alerts/Exact.antt =====
-- Which thresholds one call of `check_and_alert` of core/budget_alerts.py alerts.
use gestalt_workframe.Prelude.{
  ℕ, ◌≤◌, ◌<◌, ◌≡◌, refl, String, Bool, true, ◌&&◌, Option, none, some, List, [], ◌∷◌, map, arith,
  if◌then◌else◌, All, select,
}
use gestalt_workframe.Prelude.Int.{ℤ, pos_part}
use gestalt_workframe.Prelude.Assoc.{get, get-put}
use gestalt_workframe.Budget.Clock.{Calendar}
use gestalt_workframe.Budget.Database.{AlertKey, alert_key_eq, BudgetAlert, World}
use gestalt_workframe.Budget.Alerts.Defs.{
  AlertManager, AlertFaults, clean_thresholds, insert_sorted, sort_clamped, alert_init, pct_reached,
  should_fire, record_fired, send_alert, alert_of, fire_all, check_and_alert,
}
use Prim.Native.Nat.{min}

-- Strictly increasing.
abbrev pub Ascending : List ℕ → Type 0
Ascending [] = Unit
Ascending (t ∷ ts) = All (λ u. t < u) ts × Ascending ts

below_trans : (s t : ℕ) (ts : List ℕ) → s < t → All (λ u. t < u) ts → All (λ u. s < u) ts
below_trans s t [] h all = tt
below_trans s t (x ∷ xs) h all = (omega arith, below_trans s t xs h all.1)

insert_sorted-All :
    (s t : ℕ) (ts : List ℕ) → s < t → All (λ u. s < u) ts → All (λ u. s < u) (insert_sorted t ts)
unfolding insert_sorted
insert_sorted-All s t [] h all = (h, tt)
insert_sorted-All s t (x ∷ xs) h all = ground (arith, insert_sorted-All s t xs h all.1)

insert_sorted-Ascending : (t : ℕ) (ts : List ℕ) → Ascending ts → Ascending (insert_sorted t ts)
unfolding insert_sorted
insert_sorted-Ascending t [] h = (tt, tt)
insert_sorted-Ascending t (x ∷ xs) h =
    ground (arith, insert_sorted-Ascending t xs h.1, below_trans t x xs, insert_sorted-All x t xs)

insert_sorted-le :
    (n t : ℕ) (ts : List ℕ) → t ≤ n → All (λ u. u ≤ n) ts → All (λ u. u ≤ n) (insert_sorted t ts)
unfolding insert_sorted
insert_sorted-le n t [] h all = (h, tt)
insert_sorted-le n t (x ∷ xs) h all = ground (arith, insert_sorted-le n t xs h all.1)

sort_clamped_lem :
    (ts : List ℤ) → Ascending (sort_clamped ts) × All (λ u. u ≤ 100) (sort_clamped ts)
unfolding sort_clamped
sort_clamped_lem [] = (tt, tt)
sort_clamped_lem (t ∷ ts) =
    let (up, fits) = sort_clamped_lem ts in
    (
      insert_sorted-Ascending (min 100 (pos_part t)) (sort_clamped ts) up,
      insert_sorted-le 100 (min 100 (pos_part t)) (sort_clamped ts) (omega arith) fits,
    )

-- Whatever the variable holds, the thresholds are increasing, so none is there twice, and are at most
-- 100.
pub clean_thresholds-Ascending :
    (raw : Option (List ℤ))
    → Ascending (clean_thresholds raw) × All (λ u. u ≤ 100) (clean_thresholds raw)
unfolding clean_thresholds
clean_thresholds-Ascending none = omega arith
clean_thresholds-Ascending (some ts) = sort_clamped_lem ts

select-cong {ℓ} :
    {A : Type ℓ} (p q : A → Bool) (xs : List A)
    → All (λ x. p x ≡ q x) xs
    → select p xs ≡ select q xs
select-cong p q [] h = refl
select-cong p q (x ∷ xs) h = rw (h.0, select-cong p q xs h.1)

module _ (cal : Calendar) (f : AlertFaults) (now : ℕ) (provider : String) (limit used : ℕ) where
  abbrev key : ℕ → AlertKey
  key t = record { provider_id = provider; threshold_pct = t }

  -- A threshold is due when the use has reached it and no alert of it was recorded today.
  pub due : World → ℕ → Bool
  due w t = pct_reached limit used t && should_fire cal f now (key t) w

  after : Bool → ℕ → World → World
  after fires t w =
      if fires
      then record_fired f now (key t) (send_alert (alert_of provider limit used now t) w)
      else w

  row-after :
      (b : Bool) (t u : ℕ) (w : World)
      → t < u
      → get (key u) (after b t w).db.alert_fired ≡ get (key u) w.db.alert_fired
  unfolding after record_fired send_alert
  row-after b t u w h =
      ground (
        arith,
        get-put (key t) (key u) now w.db.alert_fired,
        alert_key_eq.agree_iff (key t) (key u),
      )

  due-after : (b : Bool) (t u : ℕ) (w : World) → t < u → due (after b t w) u ≡ due w u
  unfolding due should_fire
  due-after b t u w h = rw row-after

  due-All-after :
      (b : Bool) (t : ℕ) (ts : List ℕ) (w : World)
      → All (λ u. t < u) ts
      → All (λ u. due (after b t w) u ≡ due w u) ts
  due-All-after b t [] w h = tt
  due-All-after b t (u ∷ us) w h = (due-after b t u w h.0, due-All-after b t us w h.1)

  fire_all-exact :
      (ts : List ℕ) (w : World)
      → Ascending ts
      → map (λ (a : BudgetAlert). a.threshold_pct) (fire_all cal f now provider limit used ts w).1
        ≡ select (due w) ts
  unfolding fire_all due after
  fire_all-exact [] w up = refl
  fire_all-exact (t ∷ ts) w up = ground (
    arith,
    fire_all-exact ts (after (due w t) t w) up.1,
    select-cong (due (after (due w t) t w)) (due w) ts (due-All-after (due w t) t ts w up.0),
  )

  -- With a webhook and a limit, and from thresholds that increase, one call alerts exactly the
  -- thresholds that are due when it begins, in order, whatever reads and writes fail.
  pub check_and_alert-exact :
      (m : AlertManager) (w : World)
      → (alert_init f m).ready ≡ true
      → m.webhook_configured ≡ true
      → 0 < limit
      → Ascending m.thresholds
      → map
          (λ (a : BudgetAlert). a.threshold_pct)
          (check_and_alert cal f now provider limit used m w).2
        ≡ select (due w) m.thresholds
  unfolding check_and_alert alert_init
  check_and_alert-exact m w made hooked capped up = ground (arith, fire_all-exact m.thresholds w up)
