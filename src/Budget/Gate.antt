-- ===== src/Budget/Gate.antt =====
-- `CloudBudgetGate` of core/cloud_budget.py. A method takes the calendar, what fails, the instant, the
-- gate object and the world, and returns the object, the world and the decision. The clock is read
-- once for each call of a method. A transaction that fails leaves no write, as SQLite promises of one
-- that is not committed.
mod Defs
mod Methods
mod Recording
pub mod Frame
pub mod Calls
pub mod Caps
pub mod Admission
pub mod Accounting
pub mod Spending
pub use Defs.{CloudBudgetGate, Faults, Request, Usage, Used, allow, deny, write_state}
unfoldable pub use Defs.{
  gate_init, session_key, session_name, price_or, config_price, input_cost, output_cost,
  estimate_cost, preflight_block_reason, cap_exhausted_reason, state_value, accounting_blocked,
  set_accounting_block, count_of, bump, bump_all,
}
pub use Methods.{Outcome, used_by, reservation_keys}
unfoldable pub use Methods.{day_usd, month_usd, reserve, reserve_sqlite, availability}
pub use Recording.{SqliteUsage}
unfoldable pub use Recording.{record_usage, clear_accounting_block, sqlite_usage}
