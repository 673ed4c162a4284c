-- ===== src/Budget.antt =====
-- The cloud budget: core/cloud_budget.py with its alert manager and its session cost tracker.
pub mod Clock
pub mod Database
pub mod Alerts
pub mod SessionCost
pub mod Config
pub mod Gate
pub mod Provider
pub mod Multi
pub mod Tests
