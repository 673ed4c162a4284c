-- ===== src/Budget/Gate/Defs.antt =====
-- `CloudBudgetGate` of core/cloud_budget.py.
use gestalt_workframe.Prelude.{
  ℕ, ◌+◌, ◌*◌, String, Bool, true, false, not, ◌&&◌, ◌||◌, Option, none, some, List, [], ◌∷◌, leb,
  ltb, nat_eq, ◌==◌, text_key, or_default, if◌then◌else◌,
}
use gestalt_workframe.Prelude.Int.{ℤ}
use gestalt_workframe.Prelude.Assoc.{Assoc, get, put}
use gestalt_workframe.Budget.Database.{
  Reason, CloudBudgetDecision, CounterKey, counter_key_eq, World,
}
use gestalt_workframe.Budget.Config.{CloudBudgetConfig}
use gestalt_workframe.Budget.Alerts.{AlertManager, AlertFaults}
use gestalt_workframe.Budget.SessionCost.{SessionCostTracker, TrackerFaults}

pub record CloudBudgetGate : Type 0 where
  pub config : CloudBudgetConfig
  pub store_ready : Bool
  pub store_error : Option String
  pub alert_manager : AlertManager
  pub session_cost_tracker : SessionCostTracker

-- What fails in a call, with the exception's name where the code keeps it: the creation of the tables,
-- the read of the state table, the method's transaction, the queries after `record_usage` has
-- committed, the write of the accounting block, and what the alerts and the tracker meet.
pub record Faults : Type 0 where
  pub create : Option String
  pub state_read : Bool
  pub transaction : Option String
  pub after_commit : Option String
  pub block_write : Bool
  pub alerts : AlertFaults
  pub tracker : TrackerFaults

pub record Request : Type 0 where
  pub session_id : Option String
  pub estimated_input_tokens : ℤ
  pub requested_output_tokens : ℤ
  pub input_price : Option ℕ
  pub output_price : Option ℕ

pub record Usage : Type 0 where
  pub session_id : Option String
  pub provider : String
  pub model : String
  pub input_tokens : Option ℤ
  pub output_tokens : Option ℤ
  pub input_price : Option ℕ
  pub output_price : Option ℕ

abbrev pub allow : Reason → CloudBudgetDecision
allow r = record { allowed = true; reason = r }

abbrev pub deny : Reason → CloudBudgetDecision
deny r = record { allowed = false; reason = r }

-- `session_id or 'anonymous'`
unfoldable pub session_name : String → Option String → String
session_name anonymous none = anonymous
session_name anonymous (some s) = if s == "" then anonymous else s

unfoldable pub session_key : Option String → CounterKey
unfolding session_name
session_key s = CounterKey.session (session_name "anonymous" s)

created : Option String → CloudBudgetGate → CloudBudgetGate
created none g = record g { store_ready = true; store_error = none }
created (some e) g = record g { store_ready = false; store_error = some e }

-- `init`
unfoldable pub gate_init : Faults → CloudBudgetGate → CloudBudgetGate
unfolding created
gate_init f g = if g.store_ready || not g.config.enabled then g else created f.create g

-- `price or default`: a price of 0 gives the default too
unfoldable pub price_or : Option ℕ → ℕ → ℕ
price_or none default = default
price_or (some p) default = if nat_eq p 0 then default else p

-- `price if price is not None else default`
unfoldable pub config_price : Option ℕ → ℕ → ℕ
config_price p default = or_default p default

unfoldable pub input_cost : CloudBudgetConfig → ℕ → Option ℕ → ℕ
unfolding config_price
input_cost c tokens price = tokens * config_price price c.input_price_usd_per_million

unfoldable pub output_cost : CloudBudgetConfig → ℕ → Option ℕ → ℕ
unfolding config_price
output_cost c tokens price = tokens * config_price price c.output_price_usd_per_million

unfoldable pub estimate_cost : CloudBudgetConfig → ℕ → ℕ → Option ℕ → Option ℕ → ℕ
unfolding input_cost output_cost price_or
estimate_cost c input output input_price output_price =
    input_cost c input (some (price_or input_price c.input_price_usd_per_million))
    + output_cost c output (some (price_or output_price c.output_price_usd_per_million))

unfoldable pub preflight_block_reason : CloudBudgetConfig → ℕ → ℕ → Option Reason
preflight_block_reason c input output =
    if ltb 0 c.max_calls_per_turn && ltb c.max_calls_per_turn 1
    then some Reason.call_cap_zero
    else if nat_eq c.max_daily_usd 0 && nat_eq c.max_monthly_usd 0
    then none
    else if ltb 0 c.max_input_tokens_per_call && ltb c.max_input_tokens_per_call input
    then some Reason.input_token_cap_exceeded
    else if ltb 0 c.max_output_tokens_per_call && ltb c.max_output_tokens_per_call output
    then some Reason.output_token_cap_exceeded
    else none

-- The counts and sums that a reservation reads.
pub record Used : Type 0 where
  pub session_calls : ℕ
  pub day_calls : ℕ
  pub month_calls : ℕ
  pub day_usd : ℕ
  pub month_usd : ℕ

unfoldable pub cap_exhausted_reason :
    CloudBudgetConfig → Used → ℕ → ℕ → Option ℕ → Option ℕ → Option Reason
cap_exhausted_reason c u input output input_price output_price =
    let est_cost = estimate_cost c input output input_price output_price in
    if ltb 0 c.max_calls_per_session && leb c.max_calls_per_session u.session_calls
    then some Reason.session_call_cap_exhausted
    else if ltb 0 c.max_calls_per_day && leb c.max_calls_per_day u.day_calls
    then some Reason.daily_call_cap_exhausted
    else if ltb 0 c.max_calls_per_month && leb c.max_calls_per_month u.month_calls
    then some Reason.monthly_call_cap_exhausted
    else if ltb 0 c.max_daily_usd && ltb c.max_daily_usd (u.day_usd + est_cost)
    then some Reason.daily_usd_cap_exhausted
    else if ltb 0 c.max_monthly_usd && ltb c.max_monthly_usd (u.month_usd + est_cost)
    then some Reason.monthly_usd_cap_exhausted
    else none

-- `_state_value`: a failed read gives the empty text, and so does a missing row
unfoldable pub state_value : Faults → String → World → Option Reason
state_value f key w = if f.state_read then none else or_default (get key w.db.state) none

present : Option Reason → Bool
present none = false
present (some r) = true

unfoldable pub accounting_blocked : Faults → World → Bool
unfolding state_value present
accounting_blocked f w = present (state_value f "last_accounting_error" w)

abbrev pub write_state : Option Reason → World → World
write_state r w = record w { db = record w.db { state = put "last_accounting_error" r w.db.state } }

-- `_set_accounting_block`; a failed write is logged and forgotten
unfoldable pub set_accounting_block : Faults → CloudBudgetConfig → Reason → World → World
set_accounting_block f c r w = if not c.enabled || f.block_write then w else write_state (some r) w

-- `counts.get(key, 0)`
unfoldable pub count_of : CounterKey → Assoc CounterKey ℕ → ℕ
count_of k counters = or_default (get k counters) 0

-- the `INSERT … ON CONFLICT(key) DO UPDATE SET count = count + 1`
unfoldable pub bump : CounterKey → Assoc CounterKey ℕ → Assoc CounterKey ℕ
unfolding count_of
bump k counters = put k (count_of k counters + 1) counters

unfoldable pub bump_all : List CounterKey → Assoc CounterKey ℕ → Assoc CounterKey ℕ
unfolding bump
bump_all [] counters = counters
bump_all (k ∷ ks) counters = bump_all ks (bump k counters)
