-- ===== src/Budget/Multi/Upkeep.antt =====
-- The caps that `MultiProviderBudgetGate` of core/cloud_budget.py updates, and its headroom cache.
use gestalt_workframe.Prelude.{
  ℕ, ◌-◌, String, Bool, true, not, Option, none, some, [], ◌∷◌, ltb, text_key, or_default,
  if◌then◌else◌,
}
use gestalt_workframe.Prelude.Assoc.{Assoc, get, put}
use gestalt_workframe.Budget.Clock.{Calendar}
use gestalt_workframe.Budget.Database.{World}
use gestalt_workframe.Budget.Alerts.{AlertManager}
use gestalt_workframe.Budget.SessionCost.{SessionCostTracker}
use gestalt_workframe.Budget.Provider.{ProviderBudgetGate, is_enabled, provider_snapshot}
use gestalt_workframe.Budget.Multi.Defs.{
  MultiProviderBudgetGate, Headroom, full_headroom, with_gate,
}

with_caps : Option ℕ → Option ℕ → ProviderBudgetGate → ProviderBudgetGate
with_caps daily monthly g = record g {
  config = record g.config {
    max_daily_usd = or_default daily g.config.max_daily_usd;
    max_monthly_usd = or_default monthly g.config.max_monthly_usd;
  };
}

-- A gate made for a provider that had none, with the managers that its constructor makes.
new_gate : AlertManager → SessionCostTracker → String → Option ℕ → Option ℕ → ProviderBudgetGate
new_gate a t p daily monthly = record {
  provider_id = p;
  config = record {
    provider_id = p;
    enabled = true;
    max_daily_usd = or_default daily 0;
    max_monthly_usd = or_default monthly 0;
  };
  alert_manager = a;
  session_cost_tracker = t;
}

updated_gate :
    AlertManager
    → SessionCostTracker
    → String
    → Option ℕ
    → Option ℕ
    → Option ProviderBudgetGate
    → ProviderBudgetGate
unfolding with_caps new_gate
updated_gate a t p daily monthly none = new_gate a t p daily monthly
updated_gate a t p daily monthly (some g) = with_caps daily monthly g

unfoldable pub update_provider_budget :
    AlertManager
    → SessionCostTracker
    → String
    → Option ℕ
    → Option ℕ
    → MultiProviderBudgetGate
    → MultiProviderBudgetGate
unfolding updated_gate
update_provider_budget a t p daily monthly m =
    with_gate p (updated_gate a t p daily monthly (get p m.gates)) m

-- `max(0.0, 1.0 - day_used / max_daily)` where the gate is enabled and has a daily cap
unfoldable pub measured : Calendar → Bool → ℕ → ProviderBudgetGate → World → Headroom
measured cal fails now g w =
    let s = provider_snapshot cal fails now g w in
    if not (is_enabled g)
    then full_headroom
    else if ltb 0 s.max_daily_usd
    then record { left = s.max_daily_usd - s.day_usd; limit = s.max_daily_usd }
    else full_headroom

unfoldable pub refreshed :
    Calendar
    → (String → Bool)
    → ℕ
    → World
    → Assoc String ProviderBudgetGate
    → Assoc String Headroom
    → Assoc String Headroom
refreshed cal fails now w [] cache = cache
refreshed cal fails now w ((p, g) ∷ gs) cache =
    refreshed cal fails now w gs (put p (measured cal (fails p) now g w) cache)

unfoldable pub refresh_headroom_cache :
    Calendar → (String → Bool) → ℕ → MultiProviderBudgetGate → World → MultiProviderBudgetGate
unfolding refreshed
refresh_headroom_cache cal fails now m w = record m {
  headroom_cache = refreshed cal fails now w m.gates m.headroom_cache;
}
