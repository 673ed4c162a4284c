-- ===== src/Budget/Tests.antt =====
-- Inputs and runs of the budget, for core/cloud_budget.py and the managers that it owns.
mod Alerts
mod Gate
mod Providers
use gestalt_workframe.Prelude.{true, false, none, [], ◌∷◌}
use gestalt_workframe.Budget.Database.{World, empty_db}
use gestalt_workframe.Budget.Config.{CloudBudgetConfig, default_config}
use gestalt_workframe.Budget.Alerts.{AlertManager, AlertFaults}
use gestalt_workframe.Budget.SessionCost.{SessionCostTracker, TrackerFaults}
use gestalt_workframe.Budget.Gate.{CloudBudgetGate, Faults}
use gestalt_workframe.Budget.Provider.{ProviderBudgetGate, ProviderFaults}
use gestalt_workframe.Prelude.{ℕ}

abbrev calm_alerts : AlertFaults
calm_alerts = record { create = false; read = λ t. false; write = λ t. false }

abbrev calm_tracker : TrackerFaults
calm_tracker = record { create = false; insert = false; query = false; mark = false }

abbrev pub calm : Faults
calm = record {
  create = none;
  state_read = false;
  transaction = none;
  after_commit = none;
  block_write = false;
  alerts = calm_alerts;
  tracker = calm_tracker;
}

abbrev pub calm_provider : ProviderFaults
calm_provider = record {
  read = false;
  insert = false;
  alerts = calm_alerts;
  tracker = calm_tracker;
}

abbrev manager : AlertManager
manager = record { ready = false; webhook_configured = true; thresholds = 80 ∷ 100 ∷ [] }

-- Sessions are alerted from 5 USD.
abbrev tracker : SessionCostTracker
tracker = record { ready = false; webhook_configured = true; alert_threshold_usd = 5000000000000 }

-- Two calls a session, and 1 USD a day.
abbrev pub config : CloudBudgetConfig
config = record default_config {
  enabled = true;
  max_calls_per_session = 2;
  max_daily_usd = 1000000000000;
}

abbrev pub gate : CloudBudgetGate
gate = record {
  config = config;
  store_ready = false;
  store_error = none;
  alert_manager = manager;
  session_cost_tracker = tracker;
}

-- Anthropic's gate, with 1 USD a day.
abbrev pub anthropic : ProviderBudgetGate
anthropic = record {
  provider_id = "anthropic";
  config = record {
    provider_id = "anthropic";
    enabled = true;
    max_daily_usd = 1000000000000;
    max_monthly_usd = 0;
  };
  alert_manager = manager;
  session_cost_tracker = tracker;
}

abbrev pub fresh : World
fresh = record { db = empty_db; outbox = [] }

-- The first second of the second day.
abbrev pub second_day : ℕ
second_day = 86401000000
