-- ===== src/Budget/Provider.antt =====
-- `ProviderBudgetGate` of core/cloud_budget.py: the USD caps of one provider, over the events that the
-- shared table holds for it.
mod Defs
pub mod Ledger
pub use Defs.{ProviderBudgetGate, ProviderFaults, Charge, Snapshot}
unfoldable pub use Defs.{
  is_enabled, charge_input_cost, charge_output_cost, charge_cost, provider_day_usd,
  provider_month_usd, check_and_record, provider_snapshot,
}
