-- ===== src/Budget/Provider/Defs.antt =====
-- `ProviderBudgetGate` of core/cloud_budget.py.
use gestalt_workframe.Prelude.{
  ℕ, ◌+◌, ◌*◌, String, Bool, not, ◌&&◌, ◌||◌, Option, ◌∷◌, ltb, text_key, if◌then◌else◌,
}
use gestalt_workframe.Budget.Clock.{Calendar}
use gestalt_workframe.Budget.Database.{
  Reason, CloudBudgetDecision, UsageEvent, Database, World, provider_usd_since,
}
use gestalt_workframe.Budget.Config.{ProviderBudgetConfig}
use gestalt_workframe.Budget.Alerts.{AlertManager, AlertFaults, check_and_alert}
use gestalt_workframe.Budget.SessionCost.{SessionCostTracker, TrackerFaults, record_cost, event_of}
use gestalt_workframe.Budget.Gate.{allow, deny, session_name, price_or}

pub record ProviderBudgetGate : Type 0 where
  pub provider_id : String
  pub config : ProviderBudgetConfig
  pub alert_manager : AlertManager
  pub session_cost_tracker : SessionCostTracker

-- What fails: the queries, the insertion, and what the alerts and the tracker meet.
pub record ProviderFaults : Type 0 where
  pub read : Bool
  pub insert : Bool
  pub alerts : AlertFaults
  pub tracker : TrackerFaults

-- The arguments of `check_and_record`.
pub record Charge : Type 0 where
  pub session_id : Option String
  pub input_tokens : ℕ
  pub output_tokens : ℕ
  pub input_price : Option ℕ
  pub output_price : Option ℕ
  pub model : String
  pub check_only : Bool

unfoldable pub is_enabled : ProviderBudgetGate → Bool
is_enabled g = g.config.enabled && (ltb 0 g.config.max_daily_usd || ltb 0 g.config.max_monthly_usd)

-- `tokens * (price or 3.0)` and `tokens * (price or 15.0)`
unfoldable pub charge_input_cost : Charge → ℕ
charge_input_cost c = c.input_tokens * price_or c.input_price 3000000

unfoldable pub charge_output_cost : Charge → ℕ
charge_output_cost c = c.output_tokens * price_or c.output_price 15000000

unfoldable pub charge_cost : Charge → ℕ
charge_cost c = charge_input_cost c + charge_output_cost c

unfoldable pub provider_day_usd : Calendar → ℕ → String → Database → ℕ
provider_day_usd cal now p db = provider_usd_since p (cal.day_start (cal.day now)) db.events

unfoldable pub provider_month_usd : Calendar → ℕ → String → Database → ℕ
provider_month_usd cal now p db = provider_usd_since p (cal.month_start (cal.month now)) db.events

abbrev pub charge_event : ℕ → String → Charge → UsageEvent
charge_event now p c = record {
  created_at = now;
  session_id = session_name "provider_gate" c.session_id;
  provider = p;
  model = c.model;
  input_tokens = c.input_tokens;
  output_tokens = c.output_tokens;
  input_cost_usd = charge_input_cost c;
  output_cost_usd = charge_output_cost c;
  total_cost_usd = charge_cost c;
}

abbrev pub log_charge : ℕ → String → Charge → World → World
log_charge now p c w = record w { db = record w.db { events = charge_event now p c ∷ w.db.events } }

-- one alert, where its cap is set
unfoldable pub alert_provider :
    Calendar → AlertFaults → ℕ → String → ℕ → ℕ → AlertManager → World → AlertManager × World
alert_provider cal f now p limit used m w =
    let (m', v, fired) = check_and_alert cal f now p limit used m w in
    if ltb 0 limit then (m', v) else (m, w)

-- the alerts and the session's cost, after the insertion; the sums are those read before it, with the
-- charge added
unfoldable pub announce_charge :
    Calendar
    → ProviderFaults
    → ℕ
    → Charge
    → ProviderBudgetGate
    → ℕ
    → ℕ
    → World
    → ProviderBudgetGate × World
announce_charge cal f now c g day month w =
    let (m, v) =
      alert_provider cal f.alerts now g.provider_id g.config.max_daily_usd day g.alert_manager w in
    let (m', v') =
      alert_provider cal f.alerts now g.provider_id g.config.max_monthly_usd month m v in
    let (t, v'') =
      record_cost f.tracker now
        (event_of now (session_name "anonymous" c.session_id) g.provider_id c.model c.input_tokens
          c.output_tokens (charge_input_cost c) (charge_output_cost c))
        g.session_cost_tracker v' in
    (record g { alert_manager = m'; session_cost_tracker = t }, v'')

abbrev pub ProviderOutcome : Type 0
ProviderOutcome = ProviderBudgetGate × World × CloudBudgetDecision

-- what `check_and_record` does once both sums fit
unfoldable pub book_charge :
    Calendar → ProviderFaults → ℕ → Charge → ProviderBudgetGate → ℕ → ℕ → World → ProviderOutcome
book_charge cal f now c g day month w =
    let (g', v) = announce_charge cal f now c g day month (log_charge now g.provider_id c w) in
    if c.check_only
    then (g, w, allow Reason.within_provider_budget)
    else if f.insert
    then (g, w, deny Reason.provider_budget_check_failed)
    else (g', v, allow Reason.within_provider_budget)

unfoldable pub check_and_record :
    Calendar → ProviderFaults → ℕ → Charge → ProviderBudgetGate → World → ProviderOutcome
unfolding book_charge is_enabled
check_and_record cal f now c g w =
    let day = provider_day_usd cal now g.provider_id w.db + charge_cost c in
    let month = provider_month_usd cal now g.provider_id w.db + charge_cost c in
    if not (is_enabled g)
    then (g, w, allow Reason.provider_budget_disabled)
    else if f.read
    then (g, w, deny Reason.provider_budget_check_failed)
    else if ltb 0 g.config.max_daily_usd && ltb g.config.max_daily_usd day
    then (g, w, deny Reason.provider_daily_usd_cap_exhausted)
    else if ltb 0 g.config.max_monthly_usd && ltb g.config.max_monthly_usd month
    then (g, w, deny Reason.provider_monthly_usd_cap_exhausted)
    else book_charge cal f now c g day month w

-- The limits and the use that `snapshot` reports; a failed query reads as no use.
pub record Snapshot : Type 0 where
  pub enabled : Bool
  pub max_daily_usd : ℕ
  pub max_monthly_usd : ℕ
  pub day_usd : ℕ
  pub month_usd : ℕ

unfoldable pub provider_snapshot : Calendar → Bool → ℕ → ProviderBudgetGate → World → Snapshot
unfolding is_enabled
provider_snapshot cal fails now g w = record {
  enabled = is_enabled g;
  max_daily_usd = g.config.max_daily_usd;
  max_monthly_usd = g.config.max_monthly_usd;
  day_usd = if not (is_enabled g) || fails then 0 else provider_day_usd cal now g.provider_id w.db;
  month_usd =
      if not (is_enabled g) || fails then 0 else provider_month_usd cal now g.provider_id w.db;
}
