-- ===== src/Budget/Multi/Caching.antt =====
-- The headroom cache and the caps that `MultiProviderBudgetGate` of core/cloud_budget.py updates.
use gestalt_workframe.Prelude.{
  ℕ, ◌-◌, ◌<◌, ◌≡◌, inl, inr, refl, String, Bool, true, false, Option, none, some, [], ◌∷◌, arith,
  ◌==◌, text_key, or_default, Bool-cases, Option-cases, if◌then◌else◌,
}
use gestalt_workframe.Prelude.Assoc.{Assoc, get, put, get-put}
use gestalt_workframe.Budget.Clock.{Calendar}
use gestalt_workframe.Budget.Database.{World}
use gestalt_workframe.Budget.Config.{ProviderBudgetConfig}
use gestalt_workframe.Budget.Alerts.{AlertManager}
use gestalt_workframe.Budget.SessionCost.{SessionCostTracker}
use gestalt_workframe.Budget.Provider.{
  ProviderBudgetGate, is_enabled, provider_day_usd, provider_snapshot,
}
use gestalt_workframe.Budget.Multi.Defs.{
  MultiProviderBudgetGate, Headroom, headroom, provider_config,
}
use gestalt_workframe.Budget.Multi.Upkeep.{
  measured, refreshed, refresh_headroom_cache, update_provider_budget,
}

-- The keys of a dictionary are distinct.
abbrev pub HasKeysOnce {ℓ} : {V : Type ℓ} → Assoc String V → Type ℓ
HasKeysOnce [] = Unit
HasKeysOnce ((k, v) ∷ m) = (get k m ≡ none) × HasKeysOnce m

module _ (cal : Calendar) (fails : String → Bool) (now : ℕ) (w : World) where
  -- a provider without a gate keeps what the cache held
  get-refreshed-none :
      (p : String) (gs : Assoc String ProviderBudgetGate) (cache : Assoc String Headroom)
      → get p gs ≡ none
      → get p (refreshed cal fails now w gs cache) ≡ get p cache
  unfolding refreshed get
  get-refreshed-none p [] cache h = refl
  get-refreshed-none p ((q, g) ∷ gs) cache h = ground (
    arith,
    get-refreshed-none p gs (put q (measured cal (fails q) now g w) cache),
    get-put q p (measured cal (fails q) now g w) cache,
    text_key.agree_iff q p,
  )

  get-refreshed :
      (p : String) (g : ProviderBudgetGate) (gs : Assoc String ProviderBudgetGate)
      (cache : Assoc String Headroom)
      → HasKeysOnce gs
      → get p gs ≡ some g
      → get p (refreshed cal fails now w gs cache) ≡ some (measured cal (fails p) now g w)
  unfolding refreshed get
  get-refreshed p g [] cache once h = cc
  get-refreshed p g ((q, a) ∷ gs) cache once h = elim (Bool-cases (q == p)) [
    | inl same ↦ ground (
      arith,
      get-refreshed-none p gs (put q (measured cal (fails q) now a w) cache),
      get-put q p (measured cal (fails q) now a w) cache,
      text_key.agree_iff q p,
    )
    | inr other ↦ get-refreshed p g gs _ once.1 (rw other at h)
  ]

-- After a refresh the cached headroom of a provider with a gate that is enabled, has a daily cap and
-- could be queried is what the cap leaves beyond the day's use, out of the cap.
pub headroom_refreshed :
    (cal : Calendar) (fails : String → Bool) (now : ℕ) (m : MultiProviderBudgetGate) (w : World)
    (p : String) (g : ProviderBudgetGate)
    → HasKeysOnce m.gates
    → get p m.gates ≡ some g
    → is_enabled g ≡ true
    → 0 < g.config.max_daily_usd
    → fails p ≡ false
    → let h = headroom (refresh_headroom_cache cal fails now m w) p in
      (h.limit ≡ g.config.max_daily_usd)
      × (h.left ≡ g.config.max_daily_usd - provider_day_usd cal now g.provider_id w.db)
unfolding headroom refresh_headroom_cache measured provider_snapshot
headroom_refreshed cal fails now m w p g once here on capped read =
    rw (get-refreshed cal fails now w p g m.gates m.headroom_cache once here)
      (ground arith, ground arith)

-- The caps of a provider after an update: a cap that is not given stays, or is 0 for a new gate.
abbrev pub config_after :
    String → Option ℕ → Option ℕ → Option ProviderBudgetConfig → ProviderBudgetConfig
config_after p daily monthly none = record {
  provider_id = p;
  enabled = true;
  max_daily_usd = or_default daily 0;
  max_monthly_usd = or_default monthly 0;
}
config_after p daily monthly (some c) = record c {
  max_daily_usd = or_default daily c.max_daily_usd;
  max_monthly_usd = or_default monthly c.max_monthly_usd;
}

-- An update sets the caps that are given for its provider, makes an enabled gate where there was none,
-- and leaves the configuration of every other provider alone.
pub provider_config-update_provider_budget :
    (a : AlertManager) (t : SessionCostTracker) (p q : String) (daily monthly : Option ℕ)
    (m : MultiProviderBudgetGate)
    → provider_config (update_provider_budget a t p daily monthly m) q ≡ (
        if p == q
        then some (config_after p daily monthly (provider_config m p))
        else provider_config m q)
unfolding provider_config update_provider_budget
provider_config-update_provider_budget a t p q daily monthly m =
    rw get-put (elim (Option-cases (get p m.gates)) [
      | inl absent ↦ simp absent (ground arith)
      | inr (g, present) ↦ simp present (ground arith)
    ])
