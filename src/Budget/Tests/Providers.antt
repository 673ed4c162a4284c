-- ===== src/Budget/Tests/Providers.antt =====
-- Runs of the provider gates, and their theorems at them.
use gestalt_workframe.Prelude.{◌+◌, ◌≡◌, ◌≢◌, refl, inl, true, false, none, some, [], ◌∷◌, text_key}
use mathlib.Core.Bool.{false≢true}
use gestalt_workframe.Prelude.Assoc.{get}
use gestalt_workframe.Budget.Clock.{plain_calendar, plain_calendar-IsCalendar}
use gestalt_workframe.Budget.Database.{counter_key_eq, provider_usd_since, usd_since}
use gestalt_workframe.Budget.Gate.{
  CloudBudgetGate, reserve, reserve_sqlite, gate_init, session_key, preflight_block_reason,
  accounting_blocked, cap_exhausted_reason, estimate_cost, day_usd, month_usd, count_of, price_or,
}
use gestalt_workframe.Budget.Gate.Admission.{Within}
use gestalt_workframe.Budget.Provider.{
  Charge, check_and_record, is_enabled, charge_cost, charge_input_cost, charge_output_cost,
  provider_day_usd, provider_month_usd,
}
use gestalt_workframe.Budget.Provider.Ledger.{refused_changes_nothing, charge_booked}
use gestalt_workframe.Budget.Multi.{
  MultiProviderBudgetGate, MultiRequest, global_request, MultiFaults, gate_of, provider_check,
}
use gestalt_workframe.Budget.Multi.Reserving.{provider_passes}
use gestalt_workframe.Budget.Multi.Caching.{HasKeysOnce}
use gestalt_workframe.Budget.Tests.{calm, calm_provider, gate, anthropic, fresh, second_day}

-- 1,000 and 500 tokens: 0.0105 USD at the default prices.
abbrev charge : Charge
charge = record {
  session_id = none;
  input_tokens = 1000;
  output_tokens = 500;
  input_price = none;
  output_price = none;
  model = "m";
  check_only = false;
}

-- 100,000 output tokens: 1.5 USD, above the day's cap.
abbrev large : Charge
large = record charge { output_tokens = 100000 }

large_refused :
    (check_and_record plain_calendar calm_provider second_day large anthropic fresh).2.allowed
    ≡ false
unfolding check_and_record provider_day_usd provider_month_usd charge_cost charge_input_cost
    charge_output_cost price_or provider_usd_since
large_refused = refl

refused_changes_nothing_example :
    ((check_and_record plain_calendar calm_provider second_day large anthropic fresh).0 ≡ anthropic)
    × ((check_and_record plain_calendar calm_provider second_day large anthropic fresh).1 ≡ fresh)
refused_changes_nothing_example =
    refused_changes_nothing plain_calendar calm_provider second_day large anthropic fresh
      (inl large_refused)

charge_allowed :
    (check_and_record plain_calendar calm_provider second_day charge anthropic fresh).2.allowed
    ≡ true
unfolding check_and_record provider_day_usd provider_month_usd charge_cost charge_input_cost
    charge_output_cost price_or provider_usd_since
charge_allowed = refl

openai_is_other : "openai" ≢ anthropic.provider_id
openai_is_other e = false≢true ((text_key.agree_iff "openai" "anthropic").1 e)

charge_booked_example :
    let db =
      (check_and_record plain_calendar calm_provider second_day charge anthropic fresh).1.db in
    (provider_day_usd plain_calendar second_day "anthropic" db
      ≡ provider_day_usd plain_calendar second_day "anthropic" fresh.db + charge_cost charge)
    × (provider_month_usd plain_calendar second_day "anthropic" db
        ≡ provider_month_usd plain_calendar second_day "anthropic" fresh.db + charge_cost charge)
    × Within 1000000000000 (provider_day_usd plain_calendar second_day "anthropic" db)
    × Within 0 (provider_month_usd plain_calendar second_day "anthropic" db)
    × (provider_usd_since "openai" 0 db.events ≡ provider_usd_since "openai" 0 fresh.db.events)
unfolding is_enabled
charge_booked_example =
    charge_booked plain_calendar calm_provider second_day charge anthropic fresh "openai" 0
      plain_calendar-IsCalendar openai_is_other refl refl charge_allowed

abbrev wide_gate : CloudBudgetGate
wide_gate = record gate { config = record gate.config { max_daily_usd = 9000000000000 } }

abbrev multi : MultiProviderBudgetGate
multi = record {
  global_gate = some wide_gate;
  gates = ("anthropic", anthropic) ∷ [];
  headroom_cache = [];
}

abbrev multi_faults : MultiFaults
multi_faults = record { global = calm; provider = calm_provider }

-- A request for more than Anthropic's cap, and within the global one.
abbrev big_request : MultiRequest
big_request = record {
  session_id = some "s1";
  estimated_input_tokens = 0;
  requested_output_tokens = 100000;
  input_price = none;
  output_price = none;
}

big_reserved :
    (reserve plain_calendar calm second_day
      (global_request big_request)
      (gate_init calm wide_gate)
      fresh).2.allowed
    ≡ true
unfolding reserve reserve_sqlite gate_init session_key preflight_block_reason accounting_blocked
    cap_exhausted_reason estimate_cost day_usd month_usd usd_since count_of get
big_reserved = refl

big_refused :
    provider_passes plain_calendar multi_faults second_day big_request
      (reserve plain_calendar calm second_day
        (global_request big_request)
        (gate_init calm wide_gate)
        fresh).1
      (gate_of multi (some "anthropic"))
    ≡ false
unfolding provider_passes check_and_record provider_day_usd provider_month_usd charge_cost
    charge_input_cost charge_output_cost price_or provider_usd_since provider_check reserve
    reserve_sqlite gate_init session_key preflight_block_reason accounting_blocked
    cap_exhausted_reason estimate_cost day_usd month_usd usd_since count_of get gate_of is_enabled
big_refused = refl

anthropic_gate : get "anthropic" multi.gates ≡ some anthropic
unfolding get
anthropic_gate = refl

anthropic_enabled : is_enabled anthropic ≡ true
unfolding is_enabled
anthropic_enabled = refl

keys_once : HasKeysOnce multi.gates
unfolding get
keys_once = (refl, tt)
