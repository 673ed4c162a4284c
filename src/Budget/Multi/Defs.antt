-- ===== src/Budget/Multi/Defs.antt =====
-- `MultiProviderBudgetGate` of core/cloud_budget.py.
use gestalt_workframe.Prelude.{
  ℕ, String, Option, none, some, ◌==◌, text_key, or_default, if◌then◌else◌,
}
use gestalt_workframe.Prelude.Assoc.{Assoc, get, put}
use gestalt_workframe.Budget.Database.{CloudBudgetDecision, World}
use gestalt_workframe.Budget.Config.{ProviderBudgetConfig}
use gestalt_workframe.Budget.Gate.{CloudBudgetGate, Faults}
use gestalt_workframe.Budget.Provider.{ProviderBudgetGate, ProviderFaults}

-- A headroom is `left / limit`, between 0 and 1; 1.0 is 1 of 1.
pub record Headroom : Type 0 where
  pub left : ℕ
  pub limit : ℕ

abbrev pub full_headroom : Headroom
full_headroom = record { left = 1; limit = 1 }

-- `global_gate` is a gate or only a configuration, which the methods pass over.
pub record MultiProviderBudgetGate : Type 0 where
  pub global_gate : Option CloudBudgetGate
  pub gates : Assoc String ProviderBudgetGate
  pub headroom_cache : Assoc String Headroom

pub record MultiFaults : Type 0 where
  pub global : Faults
  pub provider : ProviderFaults

-- The arguments of `reserve`; its token counts are estimates, which are not below 0.
pub record MultiRequest : Type 0 where
  pub session_id : Option String
  pub estimated_input_tokens : ℕ
  pub requested_output_tokens : ℕ
  pub input_price : Option ℕ
  pub output_price : Option ℕ

abbrev pub MultiOutcome : Type 0
MultiOutcome = MultiProviderBudgetGate × World × CloudBudgetDecision

pub data SomeGate : Type 0 where
  provider_gate : ProviderBudgetGate → SomeGate
  global_gate : CloudBudgetGate → SomeGate
  default_gate : SomeGate

global_or_default : Option CloudBudgetGate → SomeGate
global_or_default none = SomeGate.default_gate
global_or_default (some g) = SomeGate.global_gate g

gate_or : Option ProviderBudgetGate → SomeGate → SomeGate
gate_or none other = other
gate_or (some g) other = SomeGate.provider_gate g

-- the gate of a provider id that is given and not empty
unfoldable pub gate_of : MultiProviderBudgetGate → Option String → Option ProviderBudgetGate
gate_of m none = none
gate_of m (some p) = if p == "" then none else get p m.gates

-- A `CloudBudgetGate()` made on the spot stands where there is no gate at all.
unfoldable pub gate_for : MultiProviderBudgetGate → Option String → SomeGate
unfolding gate_of gate_or global_or_default
gate_for m p = gate_or (gate_of m p) (global_or_default m.global_gate)

unfoldable pub headroom : MultiProviderBudgetGate → String → Headroom
headroom m p = or_default (get p m.headroom_cache) full_headroom

config_of : Option ProviderBudgetGate → Option ProviderBudgetConfig
config_of none = none
config_of (some g) = some g.config

unfoldable pub provider_config : MultiProviderBudgetGate → String → Option ProviderBudgetConfig
unfolding config_of
provider_config m p = config_of (get p m.gates)

-- The gate object of a provider after one of its methods.
abbrev pub with_gate :
    String → ProviderBudgetGate → MultiProviderBudgetGate → MultiProviderBudgetGate
with_gate p g m = record m { gates = put p g m.gates }
