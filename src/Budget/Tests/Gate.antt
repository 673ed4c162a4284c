-- ===== src/Budget/Tests/Gate.antt =====
-- Runs of `CloudBudgetGate`, and its theorems at them.
use gestalt_workframe.Prelude.{
  ◌+◌, ◌≡◌, refl, inr, true, false, none, some, List, [], ◌∷◌, arith, ◌↔◌,
}
use gestalt_workframe.Prelude.Int.{pos}
use gestalt_workframe.Prelude.Assoc.{get}
use gestalt_workframe.Budget.Clock.{plain_calendar, plain_calendar-IsCalendar}
use gestalt_workframe.Budget.Database.{counter_key_eq, usd_since}
use gestalt_workframe.Budget.Gate.{
  Request, Usage, reserve, reserve_sqlite, availability, record_usage, count_of, gate_init,
  session_key, preflight_block_reason, accounting_blocked, cap_exhausted_reason, estimate_cost,
  day_usd, month_usd,
}
use gestalt_workframe.Budget.Gate.Admission.{
  IsAdmissible, Within, reserve_iff, availability_of_reserve,
}
use gestalt_workframe.Budget.Gate.Calls.{GateCall, reserves, records, run_calls}
use gestalt_workframe.Budget.Gate.Caps.{IsWithinCaps, run_calls-IsWithinCaps}
use gestalt_workframe.Budget.Gate.Accounting.{bad_usage_stops_spending, lifts, has_tokens}
use gestalt_workframe.Budget.Gate.Spending.{after_call-Within, usage_booked, after_call, call_cost}
use gestalt_workframe.Budget.Tests.{calm, config, gate, fresh, second_day}

abbrev request : Request
request = record {
  session_id = some "s1";
  estimated_input_tokens = pos 1000;
  requested_output_tokens = pos 500;
  input_price = none;
  output_price = none;
}

abbrev usage : Usage
usage = record {
  session_id = some "s1";
  provider = "anthropic";
  model = "m";
  input_tokens = some (pos 900);
  output_tokens = some (pos 400);
  input_price = none;
  output_price = none;
}

abbrev no_counts : Usage
no_counts = record usage { input_tokens = none }

request_admitted : (reserve plain_calendar calm second_day request gate fresh).2.allowed ≡ true
unfolding reserve reserve_sqlite gate_init session_key preflight_block_reason accounting_blocked
    cap_exhausted_reason estimate_cost day_usd month_usd usd_since count_of get
request_admitted = refl

reserve_iff_example :
    ((reserve plain_calendar calm second_day request gate fresh).2.allowed ≡ true)
    ↔ IsAdmissible plain_calendar calm second_day request gate fresh
reserve_iff_example = reserve_iff plain_calendar calm second_day request gate fresh

availability_of_reserve_example :
    (availability plain_calendar calm second_day (pos 1000) (pos 500) gate fresh).2.allowed ≡ true
availability_of_reserve_example =
    availability_of_reserve plain_calendar calm second_day request gate fresh refl refl
      request_admitted

fresh-IsWithinCaps : IsWithinCaps config fresh.db.counters
unfolding count_of get
fresh-IsWithinCaps = record {
  session_ok = λ s. inr (omega arith);
  day_ok = λ d. inr (omega arith);
  month_ok = λ m. inr (omega arith);
}

abbrev three_reservations : List GateCall
three_reservations =
    reserves calm second_day request
    ∷ reserves calm second_day request
    ∷ reserves calm second_day request
    ∷ []

run_calls-IsWithinCaps_example :
    IsWithinCaps config (run_calls plain_calendar three_reservations gate fresh).1.db.counters
run_calls-IsWithinCaps_example =
    run_calls-IsWithinCaps plain_calendar three_reservations gate fresh fresh-IsWithinCaps

bad_usage_stops_spending_example :
    (reserve plain_calendar calm second_day request
      (run_calls plain_calendar
        (records calm second_day usage ∷ [])
        (record_usage plain_calendar calm second_day no_counts gate fresh).0
        (record_usage plain_calendar calm second_day no_counts gate fresh).1).0
      (run_calls plain_calendar
        (records calm second_day usage ∷ [])
        (record_usage plain_calendar calm second_day no_counts gate fresh).0
        (record_usage plain_calendar calm second_day no_counts gate fresh).1).1).2.allowed
    ≡ false
unfolding lifts has_tokens
bad_usage_stops_spending_example =
    bad_usage_stops_spending plain_calendar calm calm second_day second_day no_counts
      (records calm second_day usage ∷ []) request gate fresh refl refl refl (refl, tt) refl

after_call-Within_example :
    Within 1000000000000 (
      day_usd plain_calendar second_day
        (after_call plain_calendar calm calm second_day second_day request usage gate fresh).db)
    × Within 0 (
        month_usd plain_calendar second_day
          (after_call plain_calendar calm calm second_day second_day request usage gate fresh).db)
after_call-Within_example =
    after_call-Within plain_calendar calm calm second_day second_day request usage gate fresh 900
      400 request_admitted refl refl refl refl refl refl (omega arith) (omega arith)

usage_recorded : (record_usage plain_calendar calm second_day usage gate fresh).2.allowed ≡ true
unfolding record_usage gate_init
usage_recorded = refl

usage_booked_example :
    (day_usd plain_calendar second_day
        (record_usage plain_calendar calm second_day usage gate fresh).1.db
      ≡ day_usd plain_calendar second_day fresh.db + call_cost config 900 400 none none)
    × (month_usd plain_calendar second_day
          (record_usage plain_calendar calm second_day usage gate fresh).1.db
        ≡ month_usd plain_calendar second_day fresh.db + call_cost config 900 400 none none)
usage_booked_example =
    usage_booked plain_calendar calm second_day usage gate fresh 900 400 plain_calendar-IsCalendar
      refl refl refl usage_recorded
