-- ===== src/Budget/Multi.antt =====
-- `MultiProviderBudgetGate` of core/cloud_budget.py: the global gate and the gates of the providers,
-- over one database.
mod Defs
mod Methods
mod Upkeep
pub mod Reserving
pub mod Caching
pub use Defs.{MultiProviderBudgetGate, MultiRequest, MultiFaults, SomeGate, Headroom}
unfoldable pub use Defs.{gate_of, gate_for, headroom, provider_config}
pub use Methods.{global_request}
unfoldable pub use Methods.{
  charge_gate, gate_key, provider_check, multi_init, multi_record_usage, multi_reserve,
  multi_clear_accounting_block,
}
unfoldable pub use Upkeep.{update_provider_budget, measured, refresh_headroom_cache}
