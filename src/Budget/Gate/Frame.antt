-- ===== src/Budget/Gate/Frame.antt =====
-- What the calls that surround the ledger of core/cloud_budget.py leave alone.
use gestalt_workframe.Prelude.{
  ℕ, ◌+◌, ◌≡◌, refl, ◌∙◌, String, List, [], ◌∷◌, arith, if◌then◌else◌, ◌==◌,
}
use gestalt_workframe.Prelude.Assoc.{Assoc, get-put}
use gestalt_workframe.Budget.Clock.{Calendar}
use gestalt_workframe.Budget.Database.{
  CounterKey, counter_key_eq, SessionCostEvent, UsageEvent, World,
}
use gestalt_workframe.Budget.Alerts.{
  AlertManager, AlertFaults, alert_init, fire_all, check_and_alert,
}
use gestalt_workframe.Budget.SessionCost.{SessionCostTracker, TrackerFaults, record_cost}
use gestalt_workframe.Budget.Gate.Defs.{CloudBudgetGate, Faults, gate_init, count_of, bump}
use gestalt_workframe.Budget.Gate.Recording.{alert_cap, announce}

-- The ledger: the counters, the usage events and the accounting state.
pub record SameLedger (w v : World) : Type 0 where
  pub counters : v.db.counters ≡ w.db.counters
  pub events : v.db.events ≡ w.db.events
  pub state : v.db.state ≡ w.db.state

pub SameLedger-refl : (w : World) → SameLedger w w
SameLedger-refl w = record { counters = refl; events = refl; state = refl }

pub SameLedger-trans : {u v w : World} → SameLedger u v → SameLedger v w → SameLedger u w
SameLedger-trans h k = record {
  counters = k.counters ∙ h.counters;
  events = k.events ∙ h.events;
  state = k.state ∙ h.state;
}

module _ (cal : Calendar) (f : AlertFaults) (now : ℕ) (p : String) (limit used : ℕ) where
  fire_all-SameLedger :
      (ts : List ℕ) (w : World) → SameLedger w (fire_all cal f now p limit used ts w).0
  unfolding fire_all
  fire_all-SameLedger [] w = SameLedger-refl w
  fire_all-SameLedger (t ∷ ts) w = SameLedger-trans (ground arith) (fire_all-SameLedger ts _)

  pub check_and_alert-SameLedger :
      (m : AlertManager) (w : World) → SameLedger w (check_and_alert cal f now p limit used m w).1
  unfolding check_and_alert
  check_and_alert-SameLedger m w = ground (arith, fire_all-SameLedger (alert_init f m).thresholds w)

pub record_cost-SameLedger :
    (f : TrackerFaults) (now : ℕ) (e : SessionCostEvent) (t : SessionCostTracker) (w : World)
    → SameLedger w (record_cost f now e t w).1
unfolding record_cost
record_cost-SameLedger f now e t w = ground arith

alert_cap-SameLedger :
    (cal : Calendar) (f : AlertFaults) (now limit used : ℕ) (m : AlertManager) (w : World)
    → SameLedger w (alert_cap cal f now limit used m w).1
unfolding alert_cap
alert_cap-SameLedger cal f now limit used m w =
    ground (arith, check_and_alert-SameLedger cal f now "cloud_spillover" limit used m w)

pub announce-SameLedger :
    (cal : Calendar) (f : Faults) (now : ℕ) (e : UsageEvent) (g : CloudBudgetGate) (w : World)
    → SameLedger w (announce cal f now e g w).1
unfolding announce
announce-SameLedger cal f now e g w =
    SameLedger-trans (alert_cap-SameLedger cal f.alerts now _ _ _ w) (
      SameLedger-trans (alert_cap-SameLedger cal f.alerts now _ _ _ _)
        (record_cost-SameLedger f.tracker now _ _ _))

pub config-gate_init : (f : Faults) (g : CloudBudgetGate) → (gate_init f g).config ≡ g.config
unfolding gate_init
config-gate_init f g = ground arith

-- Counting one call under a key adds one to its count and to no other.
pub count_of-bump :
    (k j : CounterKey) (cs : Assoc CounterKey ℕ)
    → count_of j (bump k cs) ≡ (if k == j then count_of j cs + 1 else count_of j cs)
unfolding count_of bump
count_of-bump k j cs =
    ground (arith, get-put k j (count_of k cs + 1) cs, counter_key_eq.agree_iff k j)
