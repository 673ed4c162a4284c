-- ===== src/Router/Budgets.antt =====
-- The budgets that core/router.py asks, as gates of its interface: none, a `CloudBudgetGate`, and a
-- `MultiProviderBudgetGate`. What fails is a function of the instant.
use gestalt_workframe.Prelude.{
  ℕ, ◌*◌, ◌/◌, String, Bool, true, false, Option, none, some, text_key, if◌then◌else◌,
}
use gestalt_workframe.Prelude.Int.{ℤ, pos_part}
use gestalt_workframe.Prelude.Assoc.{get}
use gestalt_workframe.Budget.Clock.{Calendar}
use gestalt_workframe.Budget.Config.{default_config, CloudBudgetConfig}
use gestalt_workframe.Budget.Database.{World}
use gestalt_workframe.Budget.Gate.{CloudBudgetGate, Faults, Request, Usage, reserve, record_usage}
use gestalt_workframe.Budget.Provider.{ProviderBudgetGate, ProviderFaults, Charge, is_enabled}
use gestalt_workframe.Budget.Multi.{
  MultiProviderBudgetGate, MultiFaults, SomeGate, Headroom, gate_for, headroom, gate_key,
  multi_record_usage, refresh_headroom_cache,
}
use gestalt_workframe.Router.Chat.{SpendGate}

-- `config.max_output_tokens_per_call` where the config is enabled
unfoldable pub output_cap_of : CloudBudgetConfig → ℕ
output_cap_of c = if c.enabled then c.max_output_tokens_per_call else 0

-- `cloud_budget` is None.
abbrev pub absent_gate : SpendGate
absent_gate = record {
  Store = Unit;
  reserve = λ now p q s. (s, some false);
  record_usage = λ now p u s. (s, true);
  refresh = λ now s. s;
  output_cap = λ s. 0;
  headroom = λ s p. 50;
}

unfoldable pub single_reserve :
    Calendar
    → (ℕ → Faults)
    → ℕ
    → String
    → Request
    → CloudBudgetGate × World
    → (CloudBudgetGate × World) × Option Bool
single_reserve cal f now p q (g, w) =
    let (g', v, answer) = reserve cal (f now) now q g w in ((g', v), some answer.allowed)

unfoldable pub single_record :
    Calendar
    → (ℕ → Faults)
    → ℕ
    → String
    → Usage
    → CloudBudgetGate × World
    → (CloudBudgetGate × World) × Bool
single_record cal f now p u (g, w) =
    let (g', v, answer) = record_usage cal (f now) now u g w in ((g', v), true)

abbrev pub single_gate : Calendar → (ℕ → Faults) → SpendGate
single_gate cal f = record {
  Store = CloudBudgetGate × World;
  reserve = single_reserve cal f;
  record_usage = single_record cal f;
  refresh = λ now s. s;
  output_cap = λ s. output_cap_of s.0.config;
  headroom = λ s p. 50;
}

-- The gate that `gate_for` gives, asked to reserve: a `ProviderBudgetGate` has no `reserve`, so that the
-- call raises AttributeError, and the default gate is disabled.
unfoldable pub reserve_at :
    Calendar
    → Faults
    → ℕ
    → Request
    → MultiProviderBudgetGate
    → World
    → SomeGate
    → (MultiProviderBudgetGate × World) × Option Bool
reserve_at cal f now q m w (SomeGate.provider_gate g) = ((m, w), none)
reserve_at cal f now q m w (SomeGate.global_gate g) =
    let (g', v, answer) = reserve cal f now q g w in
    ((record m { global_gate = some g' }, v), some answer.allowed)
reserve_at cal f now q m w SomeGate.default_gate = ((m, w), some default_config.enabled)

unfoldable pub multi_gate_reserve :
    Calendar
    → (ℕ → MultiFaults)
    → ℕ
    → String
    → Request
    → MultiProviderBudgetGate × World
    → (MultiProviderBudgetGate × World) × Option Bool
unfolding reserve_at
multi_gate_reserve cal f now p q (m, w) =
    reserve_at cal (f now).global now q m w (gate_for m (some p))

charge_of : Usage → ℕ → ℕ → Charge
charge_of u input output = record {
  session_id = u.session_id;
  input_tokens = input;
  output_tokens = output;
  input_price = u.input_price;
  output_price = u.output_price;
  model = u.model;
  check_only = false;
}

-- A gate that is there and enabled multiplies the token counts, so that it raises without them.
unfoldable pub needs_counts : Option ProviderBudgetGate → Bool
needs_counts none = false
needs_counts (some g) = is_enabled g

-- what booking leaves, for the token counts, and whether it raised
unfoldable pub booked :
    Calendar
    → ProviderFaults
    → ℕ
    → String
    → Usage
    → MultiProviderBudgetGate
    → World
    → Option ℤ
    → Option ℤ
    → (MultiProviderBudgetGate × World) × Bool
unfolding charge_of
booked cal f now p u m w (some i) (some o) = (
  multi_record_usage cal f now (charge_of u (pos_part i) (pos_part o)) u.provider (some p) m w,
  true,
)
booked cal f now p u m w (some i) none = ((m, w), false)
booked cal f now p u m w none o = ((m, w), false)

unfoldable pub multi_gate_record :
    Calendar
    → (ℕ → MultiFaults)
    → ℕ
    → String
    → Usage
    → MultiProviderBudgetGate × World
    → (MultiProviderBudgetGate × World) × Bool
unfolding booked needs_counts
multi_gate_record cal f now p u (m, w) =
    let done = booked cal (f now).provider now p u m w u.input_tokens u.output_tokens in
    if needs_counts (get (gate_key (some p) u.provider) m.gates) then done else ((m, w), true)

-- `int(50 * headroom)`
unfoldable pub headroom_points : Headroom → ℕ
headroom_points h = 50 * h.left / h.limit

-- `config`
unfoldable pub multi_config : Option CloudBudgetGate → CloudBudgetConfig
multi_config none = default_config
multi_config (some g) = g.config

unfoldable pub multi_gate_refresh :
    Calendar
    → (ℕ → String → Bool)
    → ℕ
    → MultiProviderBudgetGate × World
    → MultiProviderBudgetGate × World
multi_gate_refresh cal fails now (m, w) = (refresh_headroom_cache cal (fails now) now m w, w)

-- `snapshot_fails` says which provider's snapshot fails at an instant.
abbrev pub multi_gate : Calendar → (ℕ → MultiFaults) → (ℕ → String → Bool) → SpendGate
multi_gate cal f snapshot_fails = record {
  Store = MultiProviderBudgetGate × World;
  reserve = multi_gate_reserve cal f;
  record_usage = multi_gate_record cal f;
  refresh = multi_gate_refresh cal snapshot_fails;
  output_cap = λ s. output_cap_of (multi_config s.0.global_gate);
  headroom = λ s p. headroom_points (headroom s.0 p);
}
