-- ===== src/Budget/Multi/Methods.antt =====
-- The methods of `MultiProviderBudgetGate` of core/cloud_budget.py that serve a request.
use gestalt_workframe.Prelude.{
  ℕ, String, Bool, true, false, Option, none, some, ◌==◌, text_key, if◌then◌else◌,
}
use gestalt_workframe.Prelude.Int.{pos}
use gestalt_workframe.Prelude.Assoc.{get}
use gestalt_workframe.Budget.Clock.{Calendar}
use gestalt_workframe.Budget.Database.{Reason, CloudBudgetDecision, World}
use gestalt_workframe.Budget.Gate.{
  CloudBudgetGate, Faults, Request, allow, deny, gate_init, reserve, write_state,
}
use gestalt_workframe.Budget.Provider.{ProviderBudgetGate, ProviderFaults, Charge, check_and_record}
use gestalt_workframe.Budget.Multi.Defs.{
  MultiProviderBudgetGate, MultiRequest, MultiFaults, MultiOutcome, gate_of, with_gate,
}

unfoldable pub charge_gate :
    Calendar
    → ProviderFaults
    → ℕ
    → Charge
    → String
    → MultiProviderBudgetGate
    → World
    → Option ProviderBudgetGate
    → MultiProviderBudgetGate × World
charge_gate cal f now c p m w none = (m, w)
charge_gate cal f now c p m w (some g) =
    let (g', v, d) = check_and_record cal f now c g w in (with_gate p g' m, v)

unfoldable pub gate_key : Option String → String → String
gate_key none q = q
gate_key (some p) q = if p == "" then q else p

-- `record_usage`: the gate is that of `provider_id`, or of `provider` where that is none or empty; its
-- decision is dropped
unfoldable pub multi_record_usage :
    Calendar
    → ProviderFaults
    → ℕ
    → Charge
    → String
    → Option String
    → MultiProviderBudgetGate
    → World
    → MultiProviderBudgetGate × World
unfolding charge_gate gate_key
multi_record_usage cal f now c provider id m w =
    let key = gate_key id provider in
    charge_gate cal f now (record c { check_only = false }) key m w (get key m.gates)

-- what `reserve` passes on to the global gate
abbrev pub global_request : MultiRequest → Request
global_request r = record {
  session_id = r.session_id;
  estimated_input_tokens = pos r.estimated_input_tokens;
  requested_output_tokens = pos r.requested_output_tokens;
  input_price = r.input_price;
  output_price = r.output_price;
}

-- the check of `reserve` with the provider's gate, at no route price and with nothing written
unfoldable pub provider_check : MultiRequest → Charge
provider_check r = record {
  session_id = r.session_id;
  input_tokens = r.estimated_input_tokens;
  output_tokens = r.requested_output_tokens;
  input_price = none;
  output_price = none;
  model = "unknown";
  check_only = true;
}

-- the second half of `reserve`, for the gate of the provider if there is one
unfoldable pub reserve_provider :
    Calendar
    → MultiFaults
    → ℕ
    → MultiRequest
    → MultiProviderBudgetGate
    → World
    → Option ProviderBudgetGate
    → MultiOutcome
unfolding provider_check
reserve_provider cal f now r m w none = (m, w, allow Reason.within_budget)
reserve_provider cal f now r m w (some g) =
    let (g', v, d) = check_and_record cal f.provider now (provider_check r) g w in
    if d.allowed then (m, v, allow Reason.within_budget) else (m, v, d)

-- the first half, for the global gate if there is one
unfoldable pub reserve_global :
    Calendar
    → MultiFaults
    → ℕ
    → MultiRequest
    → Option String
    → MultiProviderBudgetGate
    → World
    → Option CloudBudgetGate
    → MultiOutcome
unfolding reserve_provider
reserve_global cal f now r p m w none = reserve_provider cal f now r m w (gate_of m p)
reserve_global cal f now r p m w (some g) =
    let (g', v, d) = reserve cal f.global now (global_request r) (gate_init f.global g) w in
    let m' = record m { global_gate = some g' } in
    if d.allowed then reserve_provider cal f now r m' v (gate_of m' p) else (m', v, d)

unfoldable pub multi_reserve :
    Calendar
    → MultiFaults
    → ℕ
    → MultiRequest
    → Option String
    → MultiProviderBudgetGate
    → World
    → MultiOutcome
unfolding reserve_global
multi_reserve cal f now r p m w = reserve_global cal f now r p m w m.global_gate

-- `clear_accounting_block`; unlike the gate's own, it does not ask whether the gate is enabled
clear_global : Bool → World → Option CloudBudgetGate → World × CloudBudgetDecision
clear_global fails w none = (w, allow Reason.no_global_gate)
clear_global true w (some g) = (w, deny Reason.clear_failed)
clear_global false w (some g) = (write_state none w, allow Reason.accounting_block_cleared)

unfoldable pub multi_clear_accounting_block :
    Bool → MultiProviderBudgetGate → World → World × CloudBudgetDecision
unfolding clear_global
multi_clear_accounting_block fails m w = clear_global fails w m.global_gate

init_global : Faults → Option CloudBudgetGate → Option CloudBudgetGate
init_global f none = none
init_global f (some g) = some (gate_init f g)

unfoldable pub multi_init : Faults → MultiProviderBudgetGate → MultiProviderBudgetGate
unfolding init_global
multi_init f m = record m { global_gate = init_global f m.global_gate }
