-- ===== src/Budget/Gate/Recording.antt =====
-- The methods of `CloudBudgetGate` of core/cloud_budget.py that book what a call cost, lift the
-- accounting block and report.
use gestalt_workframe.Prelude.{
  ℕ, ◌+◌, String, Bool, not, ◌||◌, Option, none, some, ◌∷◌, ltb, if◌then◌else◌,
}
use gestalt_workframe.Prelude.Int.{ℤ, pos}
use gestalt_workframe.Budget.Clock.{Calendar}
use gestalt_workframe.Budget.Database.{
  Reason, CounterKey, counter_key_eq, UsageEvent, World, sessions_since,
}
use gestalt_workframe.Budget.Config.{CloudBudgetConfig}
use gestalt_workframe.Budget.Alerts.{AlertManager, AlertFaults, check_and_alert}
use gestalt_workframe.Budget.SessionCost.{record_cost, event_of}
use gestalt_workframe.Budget.Gate.Defs.{
  CloudBudgetGate, Faults, Usage, allow, deny, session_name, gate_init, input_cost, output_cost,
  set_accounting_block, write_state, count_of,
}
use gestalt_workframe.Budget.Gate.Methods.{Outcome, lose_store, day_usd, month_usd}

-- the row that `record_usage` inserts
unfoldable pub usage_event : CloudBudgetConfig → ℕ → Usage → ℕ → ℕ → UsageEvent
usage_event c now u input output = record {
  created_at = now;
  session_id = session_name "anonymous" u.session_id;
  provider = u.provider;
  model = u.model;
  input_tokens = input;
  output_tokens = output;
  input_cost_usd = input_cost c input u.input_price;
  output_cost_usd = output_cost c output u.output_price;
  total_cost_usd = input_cost c input u.input_price + output_cost c output u.output_price;
}

abbrev pub log_event : UsageEvent → World → World
log_event e w = record w { db = record w.db { events = e ∷ w.db.events } }

-- the alert of one cap, asked for only where the cap is set
unfoldable pub alert_cap :
    Calendar → AlertFaults → ℕ → ℕ → ℕ → AlertManager → World → AlertManager × World
alert_cap cal f now limit used m w =
    let (m', v, fired) = check_and_alert cal f now "cloud_spillover" limit used m w in
    if ltb 0 limit then (m', v) else (m, w)

-- what follows the commit of `record_usage`
unfoldable pub announce :
    Calendar → Faults → ℕ → UsageEvent → CloudBudgetGate → World → CloudBudgetGate × World
announce cal f now e g w =
    let (m, v) =
      alert_cap cal f.alerts now g.config.max_daily_usd (day_usd cal now w.db) g.alert_manager w in
    let (m', v') =
      alert_cap cal f.alerts now g.config.max_monthly_usd (month_usd cal now w.db) m v in
    let (t, v'') =
      record_cost f.tracker now
        (event_of now e.session_id e.provider e.model e.input_tokens e.output_tokens
          e.input_cost_usd e.output_cost_usd)
        g.session_cost_tracker v' in
    (record g { alert_manager = m'; session_cost_tracker = t }, v'')

-- the `except` of `record_usage`
unfoldable pub accounting_failed : Faults → String → CloudBudgetGate → World → Outcome
accounting_failed f e g w = (
  lose_store e g,
  set_accounting_block f g.config Reason.usage_accounting_failed w,
  deny Reason.usage_accounting_failed,
)

-- the transaction of `record_usage`, and what may fail after it has committed
unfoldable pub usage_transaction :
    Calendar
    → Faults
    → ℕ
    → UsageEvent
    → CloudBudgetGate
    → World
    → Option String
    → Option String
    → Outcome
unfolding accounting_failed
usage_transaction cal f now e g w (some x) after = accounting_failed f x g w
usage_transaction cal f now e g w none (some x) = accounting_failed f x g (log_event e w)
usage_transaction cal f now e g w none none =
    let (g', v) = announce cal f now e g (log_event e w) in (g', v, allow Reason.usage_recorded)

-- `record_usage` once the gate is ready for it, by the token counts
unfoldable pub record_tokens :
    Calendar → Faults → ℕ → Usage → CloudBudgetGate → World → Option ℤ → Option ℤ → Outcome
unfolding usage_transaction usage_event
record_tokens cal f now u g w (some (pos i)) (some (pos o)) =
    let booked =
      usage_transaction cal f now (usage_event g.config now u i o) g w f.transaction
        f.after_commit in
    if not g.store_ready then (g, w, deny Reason.budget_store_unavailable) else booked
record_tokens cal f now u g w (some i) (some o) = (
  g,
  set_accounting_block f g.config Reason.invalid_usage_metadata w,
  deny Reason.invalid_usage_metadata,
)
record_tokens cal f now u g w _ _ = (
  g,
  set_accounting_block f g.config Reason.missing_usage_metadata w,
  deny Reason.missing_usage_metadata,
)

unfoldable pub record_usage : Calendar → Faults → ℕ → Usage → CloudBudgetGate → World → Outcome
unfolding record_tokens
record_usage cal f now u g w =
    let recorded = record_tokens cal f now u (gate_init f g) w u.input_tokens u.output_tokens in
    if not g.config.enabled then (g, w, allow Reason.cloud_spillover_disabled) else recorded

-- The transaction fails or not.
unfoldable pub clear_accounting_block : Bool → CloudBudgetGate → World → Outcome
clear_accounting_block fails g w =
    if not g.config.enabled
    then (g, w, deny Reason.cloud_spillover_disabled)
    else if fails
    then (g, w, deny Reason.clear_failed)
    else (g, write_state none w, allow Reason.accounting_block_cleared)

pub record SqliteUsage : Type 0 where
  pub sessions : ℕ
  pub day : ℕ
  pub month : ℕ
  pub day_usd : ℕ
  pub month_usd : ℕ

abbrev pub no_usage : SqliteUsage
no_usage = record { sessions = 0; day = 0; month = 0; day_usd = 0; month_usd = 0 }

-- `_sqlite_usage`; a failed query reads as no usage
unfoldable pub sqlite_usage : Calendar → Bool → ℕ → CloudBudgetGate → World → SqliteUsage
sqlite_usage cal fails now g w = if not g.config.enabled || fails then no_usage else record {
  sessions = sessions_since (cal.day_start (cal.day now)) w.db.events;
  day = count_of (CounterKey.day (cal.day now)) w.db.counters;
  month = count_of (CounterKey.month (cal.month now)) w.db.counters;
  day_usd = day_usd cal now w.db;
  month_usd = month_usd cal now w.db;
}
