-- ===== src/Budget/Alerts.antt =====
-- core/budget_alerts.py: `BudgetAlertManager`. An access to the database or to the webhook may fail;
-- which ones do is an argument, and what the code catches is written out.
mod Defs
pub mod Once
pub mod Exact
pub mod Overlap
pub use Defs.{AlertManager, AlertFaults, get_config}
unfoldable pub use Defs.{
  clean_thresholds, alert_init, pct_reached, should_fire, record_fired, fire_all, check_and_alert,
  alert_of, send_alert, reset_alerts,
}
