-- ===== src/Budget/Provider/Ledger.antt =====
-- What `check_and_record` of `ProviderBudgetGate` of core/cloud_budget.py books.
use gestalt_workframe.Prelude.{
  ℕ, ◌+◌, ◌≤◌, ◌≡◌, ◌≢◌, String, true, false, ◌⊎◌, arith, text_key, List, ◌∷◌,
}
use gestalt_workframe.Budget.Clock.{Calendar, IsCalendar}
use gestalt_workframe.Budget.Database.{UsageEvent, World, provider_usd_since}
use gestalt_workframe.Budget.Gate.Admission.{Within}
use gestalt_workframe.Budget.Gate.Frame.{
  SameLedger, SameLedger-trans, check_and_alert-SameLedger, record_cost-SameLedger,
}
use gestalt_workframe.Budget.Alerts.{AlertManager, AlertFaults}
use gestalt_workframe.Budget.Provider.Defs.{
  ProviderBudgetGate, ProviderFaults, Charge, is_enabled, charge_cost, provider_day_usd,
  provider_month_usd, check_and_record, announce_charge, alert_provider, charge_event, log_charge,
}

alert_provider-SameLedger :
    (cal : Calendar) (f : AlertFaults) (now : ℕ) (p : String) (limit used : ℕ) (m : AlertManager)
    (w : World)
    → SameLedger w (alert_provider cal f now p limit used m w).1
unfolding alert_provider
alert_provider-SameLedger cal f now p limit used m w =
    ground (arith, check_and_alert-SameLedger cal f now p limit used m w)

announce_charge-SameLedger :
    (cal : Calendar) (f : ProviderFaults) (now : ℕ) (c : Charge) (g : ProviderBudgetGate)
    (day month : ℕ) (w : World)
    → SameLedger w (announce_charge cal f now c g day month w).1
unfolding announce_charge
announce_charge-SameLedger cal f now c g day month w =
    SameLedger-trans (alert_provider-SameLedger cal f.alerts now _ _ _ _ w) (
      SameLedger-trans (alert_provider-SameLedger cal f.alerts now _ _ _ _ _)
        (record_cost-SameLedger f.tracker now _ _ _))

-- A charge that is refused, or is only checked, leaves the gate and the whole world as they were.
pub refused_changes_nothing :
    (cal : Calendar) (f : ProviderFaults) (now : ℕ) (c : Charge) (g : ProviderBudgetGate)
    (w : World)
    → ((check_and_record cal f now c g w).2.allowed ≡ false) ⊎ (c.check_only ≡ true)
    → ((check_and_record cal f now c g w).0 ≡ g) × ((check_and_record cal f now c g w).1 ≡ w)
unfolding check_and_record
refused_changes_nothing cal f now c g w h = ground arith

-- The sums of a provider's events.
events-check_and_record :
    (cal : Calendar) (f : ProviderFaults) (now : ℕ) (c : Charge) (g : ProviderBudgetGate)
    (w : World)
    → is_enabled g ≡ true
    → c.check_only ≡ false
    → (check_and_record cal f now c g w).2.allowed ≡ true
    → ((check_and_record cal f now c g w).1.db.events
        ≡ charge_event now g.provider_id c ∷ w.db.events)
      × Within g.config.max_daily_usd (provider_day_usd cal now g.provider_id w.db + charge_cost c)
      × Within g.config.max_monthly_usd
          (provider_month_usd cal now g.provider_id w.db + charge_cost c)
unfolding check_and_record
events-check_and_record cal f now c g w on real allowed = ground (
  arith,
  announce_charge-SameLedger cal f now c g
      (provider_day_usd cal now g.provider_id w.db + charge_cost c)
      (provider_month_usd cal now g.provider_id w.db + charge_cost c)
      (log_charge now g.provider_id c w),
)

own_event :
    (since now : ℕ) (p : String) (c : Charge) (es : List UsageEvent)
    → since ≤ now
    → provider_usd_since p since (charge_event now p c ∷ es)
      ≡ provider_usd_since p since es + charge_cost c
unfolding provider_usd_since
own_event since now p c es h = ground (arith, text_key.agree_iff p p)

others_event :
    (since now : ℕ) (p q : String) (c : Charge) (es : List UsageEvent)
    → q ≢ p
    → provider_usd_since q since (charge_event now p c ∷ es) ≡ provider_usd_since q since es
unfolding provider_usd_since
others_event since now p q c es h = ground (arith, text_key.agree_iff p q)

-- A charge that an enabled gate books grows the provider's sums of the day and of the month by exactly
-- its cost, to no more than each cap that is set, and leaves every other provider's sums alone.
pub charge_booked :
    (cal : Calendar) (f : ProviderFaults) (now : ℕ) (c : Charge) (g : ProviderBudgetGate)
    (w : World) (q : String) (since : ℕ)
    → IsCalendar cal
    → q ≢ g.provider_id
    → is_enabled g ≡ true
    → c.check_only ≡ false
    → (check_and_record cal f now c g w).2.allowed ≡ true
    → let db = (check_and_record cal f now c g w).1.db in
      let p = g.provider_id in
      (provider_day_usd cal now p db ≡ provider_day_usd cal now p w.db + charge_cost c)
      × (provider_month_usd cal now p db ≡ provider_month_usd cal now p w.db + charge_cost c)
      × Within g.config.max_daily_usd (provider_day_usd cal now p db)
      × Within g.config.max_monthly_usd (provider_month_usd cal now p db)
      × (provider_usd_since q since db.events ≡ provider_usd_since q since w.db.events)
unfolding provider_day_usd provider_month_usd
charge_booked cal f now c g w q since is_cal other on real allowed =
    let (new, day_fits, month_fits) = events-check_and_record cal f now c g w on real allowed in
    let today =
      own_event (cal.day_start (cal.day now)) now g.provider_id c w.db.events
        (is_cal.day_begun now) in
    let this_month =
      own_event (cal.month_start (cal.month now)) now g.provider_id c w.db.events
        (omega (arith, is_cal.day_begun now, is_cal.month_begun now)) in
    rw new (
      today,
      this_month,
      rw today day_fits,
      rw this_month month_fits,
      others_event since now g.provider_id q c w.db.events other,
    )
