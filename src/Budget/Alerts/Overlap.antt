-- ===== src/Budget/Alerts/Overlap.antt =====
-- Calls of `check_and_alert` of core/budget_alerts.py that overlap: there is no lock, and each threshold
-- reads its mark, calls the webhook and writes the mark, with others in between.
use gestalt_workframe.Prelude.{
  ℕ, ◌+◌, ◌≤◌, ◌≡◌, refl, inl, inr, String, true, false, some, List, [], ◌∷◌, ◌++◌, arith, ◌==◌,
  Bool-cases, if◌then◌else◌,
}
use gestalt_workframe.Prelude.Assoc.{get, get-put}
use gestalt_workframe.Budget.Clock.{Calendar}
use gestalt_workframe.Budget.Database.{
  AlertKey, alert_key_eq, BudgetAlert, budget_threshold_crossed, World,
}
use gestalt_workframe.Budget.Alerts.Defs.{
  AlertFaults, pct_reached, should_fire, record_fired, send_alert, alert_of,
}
use gestalt_workframe.Budget.Alerts.Once.{is_alert_on, sent_on, sent_on-append}

-- The world, the alerts that are due and not yet sent, and those that are sent and not yet marked, of all
-- calls that are under way.
pub record Flights : Type 0 where
  pub world : World
  pub unsent : List BudgetAlert
  pub unmarked : List BudgetAlert

abbrev pub key_of : String → ℕ → AlertKey
key_of provider t = record { provider_id = provider; threshold_pct = t }

-- A part of a call on one day, up to the next access: `_should_fire` of a threshold that is crossed,
-- `_send_alert`, `_record_fired`; and a call that is cancelled before it sends.
pub data Step (cal : Calendar) (today : ℕ) : Flights → Flights → Type 0 where
  reads :
      (f : AlertFaults) (now : ℕ) (provider : String) (limit used t : ℕ) (c : Flights)
      → cal.day now ≡ today
      → pct_reached limit used t ≡ true
      → should_fire cal f now (key_of provider t) c.world ≡ true
      → Step cal today c (record c { unsent = alert_of provider limit used now t ∷ c.unsent })
  sends :
      (a : BudgetAlert) (before after : List BudgetAlert) (c : Flights)
      → c.unsent ≡ before ++ a ∷ after
      → Step cal today c (record {
        world = send_alert a c.world;
        unsent = before ++ after;
        unmarked = a ∷ c.unmarked;
      })
  marks :
      (f : AlertFaults) (now : ℕ) (a : BudgetAlert) (before after : List BudgetAlert) (c : Flights)
      → cal.day now ≡ today
      → c.unmarked ≡ before ++ a ∷ after
      → Step cal today c (record {
        world = record_fired f now (key_of a.provider_id a.threshold_pct) c.world;
        unsent = c.unsent;
        unmarked = before ++ after;
      })
  drops :
      (a : BudgetAlert) (before after : List BudgetAlert) (c : Flights)
      → c.unsent ≡ before ++ a ∷ after
      → Step cal today c (record c { unsent = before ++ after })

pub data Reach (cal : Calendar) (today : ℕ) (c : Flights) : Flights → Type 0 where
  here : Reach cal today c c
  next : {d e : Flights} → Reach cal today c d → Step cal today d e → Reach cal today c e

-- How many of the alerts are of the key and of the day.
pub count_on : Calendar → AlertKey → ℕ → List BudgetAlert → ℕ
count_on cal k d [] = 0
count_on cal k d (a ∷ rest) =
    (if is_alert_on cal k d (budget_threshold_crossed a) then 1 else 0) + count_on cal k d rest

module _ (cal : Calendar) (today : ℕ) (k : AlertKey) where
  count_on-without :
      (a : BudgetAlert) (xs ys : List BudgetAlert)
      → count_on cal k today (xs ++ a ∷ ys)
        ≡ (if is_alert_on cal k today (budget_threshold_crossed a) then 1 else 0)
          + count_on cal k today (xs ++ ys)
  unfolding count_on
  count_on-without a [] ys = refl
  count_on-without a (x ∷ xs) ys = omega (arith, count_on-without a xs ys)

  -- The mark of the key is of the day.
  unfoldable pub IsMarked : World → Type 0
  IsMarked w = (t : ℕ) × (get k w.db.alert_fired ≡ some t) × (cal.day t ≡ today)

  -- sent, or about to be
  abbrev expected : Flights → ℕ
  expected c = sent_on cal k today c.world.outbox + count_on cal k today c.unsent

  marked_key_silent :
      (f : AlertFaults) (now : ℕ) (provider : String) (t : ℕ) (w : World)
      → cal.day now ≡ today
      → IsMarked w
      → should_fire cal f now (key_of provider t) w ≡ true
      → (k == key_of provider t) ≡ false
  unfolding should_fire IsMarked
  marked_key_silent f now provider t w day (s, row, on_day) fires =
      elim (Bool-cases (k == key_of provider t)) [
        | inl same ↦
            ground (arith, row, on_day, day, fires, alert_key_eq.agree_iff k (key_of provider t))
        | inr other ↦ other
      ]

  record_fired-IsMarked :
      (f : AlertFaults) (now : ℕ) (j : AlertKey) (w : World)
      → cal.day now ≡ today
      → IsMarked w
      → IsMarked (record_fired f now j w)
  unfolding record_fired IsMarked
  record_fired-IsMarked f now j w day (s, row, on_day) =
      elim (Bool-cases (f.write j.threshold_pct)) [
        | inl failed ↦ rw failed (s, row, on_day)
        | inr written ↦ elim (Bool-cases (j == k)) [
          | inl same ↦ rw (written, get-put j k now w.db.alert_fired, same) (now, refl, day)
          | inr other ↦ rw (written, get-put j k now w.db.alert_fired, other) (s, row, on_day)
        ]
      ]

  outbox-record_fired :
      (f : AlertFaults) (now : ℕ) (j : AlertKey) (w : World)
      → (record_fired f now j w).outbox ≡ w.outbox
  unfolding record_fired
  outbox-record_fired f now j w = ground arith

  Step-IsMarked :
      {c d : Flights}
      → Step cal today c d
      → IsMarked c.world
      → IsMarked d.world × (expected d ≤ expected c)
  unfolding count_on send_alert alert_of IsMarked
  Step-IsMarked (reads f now provider limit used t c day crossed fires) m =
      (m, ground (arith, marked_key_silent f now provider t c.world day m fires))
  Step-IsMarked (sends a before after c e) m = (
    m,
    rw e (
        omega (
          arith,
          sent_on-append cal k today c.world.outbox (budget_threshold_crossed a),
          count_on-without a before after,
        )),
  )
  Step-IsMarked (marks f now a before after c day e) m =
      let key = key_of a.provider_id a.threshold_pct in
      (
        record_fired-IsMarked f now key c.world day m,
        rw (outbox-record_fired f now key c.world) (omega arith),
      )
  Step-IsMarked (drops a before after c e) m =
      (m, rw e (omega (arith, count_on-without a before after)))

  Reach-IsMarked :
      {c d : Flights}
      → IsMarked c.world
      → Reach cal today c d
      → IsMarked d.world × (expected d ≤ expected c)
  Reach-IsMarked m here = (m, omega arith)
  Reach-IsMarked m (next r s) =
      let (n, h) = Reach-IsMarked m r in let (o, l) = Step-IsMarked s n in (o, omega (arith, h, l))

  -- Once the mark of a provider's threshold is of the day, the only alerts of it that are still sent for that
  -- day are those of calls that had read the mark before, in whatever order the parts of overlapping
  -- calls of the day come and whatever reads and writes fail, where `reset_alerts` is not called.
  pub marked_day_quiet :
      (c d : Flights)
      → IsMarked c.world
      → Reach cal today c d
      → sent_on cal k today d.world.outbox
        ≤ sent_on cal k today c.world.outbox + count_on cal k today c.unsent
  marked_day_quiet c d m r = omega (arith, (Reach-IsMarked m r).1)
