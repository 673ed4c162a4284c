-- ===== src/Budget/Gate/Methods.antt =====
-- The methods of `CloudBudgetGate` of core/cloud_budget.py that serve a request.
use gestalt_workframe.Prelude.{
  ℕ, String, false, not, Option, none, some, List, [], ◌∷◌, if◌then◌else◌,
}
use gestalt_workframe.Prelude.Int.{ℤ, pos_part}
use gestalt_workframe.Budget.Clock.{Calendar}
use gestalt_workframe.Budget.Database.{
  Reason, CloudBudgetDecision, CounterKey, counter_key_eq, Database, World, usd_since,
}
use gestalt_workframe.Budget.Gate.Defs.{
  CloudBudgetGate, Faults, Request, Used, allow, deny, session_key, gate_init,
  preflight_block_reason, cap_exhausted_reason, accounting_blocked, set_accounting_block, count_of,
  bump_all,
}

abbrev pub Outcome : Type 0
Outcome = CloudBudgetGate × World × CloudBudgetDecision

-- `_usage_from_db`
unfoldable pub day_usd : Calendar → ℕ → Database → ℕ
day_usd cal now db = usd_since (cal.day_start (cal.day now)) db.events

unfoldable pub month_usd : Calendar → ℕ → Database → ℕ
month_usd cal now db = usd_since (cal.month_start (cal.month now)) db.events

abbrev pub used_by : Calendar → ℕ → ℕ → Database → Used
used_by cal now session_calls db = record {
  session_calls = session_calls;
  day_calls = count_of (CounterKey.day (cal.day now)) db.counters;
  month_calls = count_of (CounterKey.month (cal.month now)) db.counters;
  day_usd = day_usd cal now db;
  month_usd = month_usd cal now db;
}

abbrev pub reservation_keys : Calendar → ℕ → Option String → List CounterKey
reservation_keys cal now s =
    session_key s ∷ CounterKey.day (cal.day now) ∷ CounterKey.month (cal.month now) ∷ []

abbrev pub count_call : Calendar → ℕ → Option String → World → World
count_call cal now s w = record w {
  db = record w.db { counters = bump_all (reservation_keys cal now s) w.db.counters };
}

-- The `except` of a method: the store is taken to be unusable until the next `init`.
abbrev pub lose_store : String → CloudBudgetGate → CloudBudgetGate
lose_store e g = record g { store_ready = false; store_error = some e }

-- the end of `_reserve_sqlite`, on what the caps say
unfoldable pub settle_reservation :
    Calendar → ℕ → Request → CloudBudgetGate → World → Option Reason → Outcome
settle_reservation cal now r g w (some blocked) = (g, w, deny blocked)
settle_reservation cal now r g w none =
    (g, count_call cal now r.session_id w, allow Reason.within_budget)

-- the transaction of `_reserve_sqlite`
unfoldable pub reserve_transaction :
    Calendar → Faults → ℕ → Request → CloudBudgetGate → World → Option String → Outcome
unfolding settle_reservation
reserve_transaction cal f now r g w none = settle_reservation cal now r g w (
    cap_exhausted_reason g.config
      (used_by cal now (count_of (session_key r.session_id) w.db.counters) w.db)
      (pos_part r.estimated_input_tokens) (pos_part r.requested_output_tokens) r.input_price
      r.output_price)
reserve_transaction cal f now r g w (some e) = (
  lose_store e g,
  set_accounting_block f g.config Reason.reservation_failed w,
  deny Reason.budget_store_unavailable,
)

unfoldable pub reserve_sqlite : Calendar → Faults → ℕ → Request → CloudBudgetGate → World → Outcome
unfolding reserve_transaction
reserve_sqlite cal f now r g w =
    let g' = gate_init f g in
    if not g'.store_ready
    then (g', w, deny Reason.budget_store_unavailable)
    else if accounting_blocked f w
    then (g', w, deny Reason.budget_accounting_blocked)
    else reserve_transaction cal f now r g' w f.transaction

-- goes on unless a reason to block was found
unfoldable pub unless_blocked : Option Reason → CloudBudgetGate → World → Outcome → Outcome
unless_blocked (some blocked) g w next = (g, w, deny blocked)
unless_blocked none g w next = next

unfoldable pub reserve : Calendar → Faults → ℕ → Request → CloudBudgetGate → World → Outcome
unfolding unless_blocked
reserve cal f now r g w =
    let blocked =
      preflight_block_reason g.config (pos_part r.estimated_input_tokens)
        (pos_part r.requested_output_tokens) in
    let reserved = reserve_sqlite cal f now r g w in
    if not g.config.enabled
    then (g, w, deny Reason.cloud_spillover_disabled)
    else unless_blocked blocked g w reserved

unfoldable pub verdict : Option Reason → CloudBudgetDecision
verdict (some blocked) = deny blocked
verdict none = allow Reason.within_budget

-- the transaction of `availability`, which asks with no route price and for a new session
unfoldable pub availability_transaction :
    Calendar → ℕ → ℕ → ℕ → CloudBudgetGate → World → Option String → Outcome
unfolding verdict
availability_transaction cal now input output g w none =
    (g, w, verdict (cap_exhausted_reason g.config (used_by cal now 0 w.db) input output none none))
availability_transaction cal now input output g w (some e) =
    (lose_store e g, w, deny Reason.budget_store_unavailable)

unfoldable pub availability : Calendar → Faults → ℕ → ℤ → ℤ → CloudBudgetGate → World → Outcome
unfolding availability_transaction unless_blocked
availability cal f now input output g w =
    let i = pos_part input in
    let o = pos_part output in
    let g' = gate_init f g in
    let answer = availability_transaction cal now i o g' w f.transaction in
    let looked_up =
      if not g'.store_ready
      then (g', w, deny Reason.budget_store_unavailable)
      else if accounting_blocked f w
      then (g', w, deny Reason.budget_accounting_blocked)
      else answer in
    if not g.config.enabled
    then (g, w, deny Reason.cloud_spillover_disabled)
    else unless_blocked (preflight_block_reason g.config i o) g w looked_up
