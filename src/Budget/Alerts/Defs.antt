-- ===== src/Budget/Alerts/Defs.antt =====
-- core/budget_alerts.py.
use Prim.Native.Nat.{min}
use gestalt_workframe.Prelude.{
  ℕ, ◌-◌, ◌*◌, String, Bool, true, false, not, ◌&&◌, ◌||◌, Option, none, some, List, [], ◌∷◌, ◌++◌,
  leb, ltb, nat_eq, text_key, ◌==◌, length, select, if◌then◌else◌,
}
use gestalt_workframe.Prelude.Int.{ℤ, pos_part}
use gestalt_workframe.Prelude.Assoc.{Assoc, get, put}
use gestalt_workframe.Budget.Clock.{Calendar}
use gestalt_workframe.Budget.Database.{
  AlertKey, alert_key_eq, BudgetAlert, budget_threshold_crossed, World,
}

pub record AlertManager : Type 0 where
  pub ready : Bool
  pub webhook_configured : Bool
  pub thresholds : List ℕ

-- `sorted(set(…))`, one value at a time
unfoldable pub insert_sorted : ℕ → List ℕ → List ℕ
insert_sorted t [] = t ∷ []
insert_sorted t (x ∷ xs) =
    let rest = insert_sorted t xs in
    if nat_eq t x then x ∷ xs else if ltb t x then t ∷ x ∷ xs else x ∷ rest

unfoldable pub sort_clamped : List ℤ → List ℕ
sort_clamped [] = []
sort_clamped (t ∷ ts) = insert_sorted (min 100 (pos_part t)) (sort_clamped ts)

-- The thresholds of `_load_config`, from the numbers that were read, or none where one was no number.
unfoldable pub clean_thresholds : Option (List ℤ) → List ℕ
unfolding insert_sorted sort_clamped
clean_thresholds none = 80 ∷ 100 ∷ []
clean_thresholds (some ts) = sort_clamped ts

-- Which accesses fail: the creation of the table, and for each threshold its read and its write.
pub record AlertFaults : Type 0 where
  pub create : Bool
  pub read : ℕ → Bool
  pub write : ℕ → Bool

unfoldable pub alert_init : AlertFaults → AlertManager → AlertManager
alert_init f m = if m.ready then m else record m { ready = not f.create }

-- `min(100.0, used / limit * 100) >= threshold`, multiplied out
unfoldable pub pct_reached : ℕ → ℕ → ℕ → Bool
pct_reached limit used threshold = leb threshold 100 && leb (threshold * limit) (used * 100)

-- `_should_fire`; a failed read fires nothing
unfoldable pub should_fire : Calendar → AlertFaults → ℕ → AlertKey → World → Bool
should_fire cal f now k w =
    if f.read k.threshold_pct then false else elim (get k w.db.alert_fired) [
      | none ↦ true
      | some fired_at ↦ not (nat_eq (cal.day fired_at) (cal.day now))
    ]

-- `_record_fired`; a failed write is logged and forgotten
unfoldable pub record_fired : AlertFaults → ℕ → AlertKey → World → World
record_fired f now k w =
    if f.write k.threshold_pct
    then w
    else record w { db = record w.db { alert_fired = put k now w.db.alert_fired } }

unfoldable pub send_alert : BudgetAlert → World → World
send_alert a w = record w { outbox = w.outbox ++ budget_threshold_crossed a ∷ [] }

unfoldable pub alert_of : String → ℕ → ℕ → ℕ → ℕ → BudgetAlert
alert_of provider limit used now threshold = record {
  provider_id = provider;
  threshold_pct = threshold;
  limit_usd = limit;
  used_usd = used;
  remaining_usd = limit - used;
  fired_at = now;
}

-- the loop over the thresholds
unfoldable pub fire_all :
    Calendar → AlertFaults → ℕ → String → ℕ → ℕ → List ℕ → World → World × List BudgetAlert
unfolding pct_reached should_fire record_fired send_alert alert_of
fire_all cal f now provider limit used [] w = (w, [])
fire_all cal f now provider limit used (t ∷ ts) w =
    let k : AlertKey = record { provider_id = provider; threshold_pct = t } in
    let a = alert_of provider limit used now t in
    let fires = pct_reached limit used t && should_fire cal f now k w in
    let w' = if fires then record_fired f now k (send_alert a w) else w in
    let (v, fired) = fire_all cal f now provider limit used ts w' in
    (v, if fires then a ∷ fired else fired)

-- `check_and_alert` with no other call in between
unfoldable pub check_and_alert :
    Calendar
    → AlertFaults
    → ℕ
    → String
    → ℕ
    → ℕ
    → AlertManager
    → World
    → AlertManager × World × List BudgetAlert
unfolding fire_all alert_init
check_and_alert cal f now provider limit used m w =
    let m' = alert_init f m in
    if not m'.ready || not m'.webhook_configured
    then (m', w, [])
    else if leb limit 0
    then (m', w, [])
    else let (v, fired) = fire_all cal f now provider limit used m'.thresholds w in (m', v, fired)

-- the rows that `DELETE … WHERE provider_id = ?` leaves
rows_of_others : String → Assoc AlertKey ℕ → Assoc AlertKey ℕ
rows_of_others p rows = select (λ (r : AlertKey × ℕ). not (r.0.provider_id == p)) rows

rows_left : Option String → Assoc AlertKey ℕ → Assoc AlertKey ℕ
unfolding rows_of_others
rows_left none rows = []
rows_left (some p) rows = if p == "" then [] else rows_of_others p rows

-- `reset_alerts` and its count; an empty provider id is `None`
unfoldable pub reset_alerts :
    AlertFaults → Bool → Option String → AlertManager → World → AlertManager × World × ℕ
unfolding alert_init rows_left
reset_alerts f fails p m w =
    let m' = alert_init f m in
    let kept = rows_left p w.db.alert_fired in
    if not m'.ready || fails then (m', w, 0) else (
      m',
      record w { db = record w.db { alert_fired = kept } },
      length w.db.alert_fired - length kept,
    )

pub get_config : AlertManager → Bool × List ℕ × Bool
get_config m = (m.webhook_configured, m.thresholds, m.ready)
