-- ===== src/Budget/Gate/Calls.antt =====
-- Sequences of calls of `CloudBudgetGate` of core/cloud_budget.py, and what no call changes.
use gestalt_workframe.Prelude.{
  ℕ, ◌≡◌, String, Bool, false, Option, none, some, List, [], ◌∷◌, arith, text_key,
}
use gestalt_workframe.Prelude.Int.{ℤ, pos, negsuc}
use gestalt_workframe.Budget.Clock.{Calendar}
use gestalt_workframe.Budget.Database.{counter_key_eq, World, UsageEvent}
use gestalt_workframe.Budget.Gate.Defs.{
  CloudBudgetGate, Faults, Request, Usage, gate_init, set_accounting_block,
}
use gestalt_workframe.Budget.Gate.Methods.{reserve, reserve_sqlite, availability}
use gestalt_workframe.Budget.Gate.Recording.{
  record_usage, record_tokens, usage_transaction, usage_event, announce, log_event,
  clear_accounting_block,
}
use gestalt_workframe.Budget.Gate.Frame.{announce-SameLedger, config-gate_init}

module _ (cal : Calendar) (f : Faults) (now : ℕ) (g : CloudBudgetGate) (w : World) where
  pub config-reserve : (r : Request) → (reserve cal f now r g w).0.config ≡ g.config
  unfolding reserve reserve_sqlite
  config-reserve r = ground (arith, config-gate_init f g)

  -- A refused reservation counts no call.
  pub counters-reserve_refused :
      (r : Request)
      → (reserve cal f now r g w).2.allowed ≡ false
      → (reserve cal f now r g w).1.db.counters ≡ w.db.counters
  unfolding reserve reserve_sqlite set_accounting_block
  counters-reserve_refused r h = ground arith

  pub config-availability : (i o : ℤ) → (availability cal f now i o g w).0.config ≡ g.config
  unfolding availability
  config-availability i o = ground (arith, config-gate_init f g)

  pub world-availability : (i o : ℤ) → (availability cal f now i o g w).1 ≡ w
  unfolding availability
  world-availability i o = ground arith

  pub config-record_usage : (u : Usage) → (record_usage cal f now u g w).0.config ≡ g.config
  unfolding record_usage announce
  config-record_usage u = ground (arith, config-gate_init f g)

module _ (cal : Calendar) (f : Faults) (now : ℕ) where
  counters-usage_transaction :
      (e : UsageEvent) (g : CloudBudgetGate) (w : World) (x y : Option String)
      → (usage_transaction cal f now e g w x y).1.db.counters ≡ w.db.counters
  unfolding usage_transaction set_accounting_block
  counters-usage_transaction e g w (some x) y = ground arith
  counters-usage_transaction e g w none (some x) = ground arith
  counters-usage_transaction e g w none none =
      (announce-SameLedger cal f now e g (log_event e w)).counters

  counters-record_tokens :
      (u : Usage) (g : CloudBudgetGate) (w : World) (i o : Option ℤ)
      → (record_tokens cal f now u g w i o).1.db.counters ≡ w.db.counters
  unfolding record_tokens set_accounting_block
  counters-record_tokens u g w (some (pos i)) (some (pos o)) = ground (
    arith,
    counters-usage_transaction (usage_event g.config now u i o) g w f.transaction f.after_commit,
  )
  counters-record_tokens u g w (some (pos i)) (some (negsuc o)) = ground arith
  counters-record_tokens u g w (some (pos i)) none = ground arith
  counters-record_tokens u g w (some (negsuc i)) (some o) = ground arith
  counters-record_tokens u g w (some (negsuc i)) none = ground arith
  counters-record_tokens u g w none o = ground arith

  -- Booking what a call cost changes no call count.
  pub counters-record_usage :
      (u : Usage) (g : CloudBudgetGate) (w : World)
      → (record_usage cal f now u g w).1.db.counters ≡ w.db.counters
  unfolding record_usage
  counters-record_usage u g w =
      ground (arith, counters-record_tokens u (gate_init f g) w u.input_tokens u.output_tokens)

-- The calls of a gate's methods that may write.
pub data GateCall : Type 0 where
  reserves : Faults → ℕ → Request → GateCall
  asks : Faults → ℕ → ℤ → ℤ → GateCall
  records : Faults → ℕ → Usage → GateCall
  clears : Bool → GateCall

unfoldable pub run_call : Calendar → GateCall → CloudBudgetGate → World → CloudBudgetGate × World
run_call cal (reserves f now r) g w = let (g', v, d) = reserve cal f now r g w in (g', v)
run_call cal (asks f now i o) g w = let (g', v, d) = availability cal f now i o g w in (g', v)
run_call cal (records f now u) g w = let (g', v, d) = record_usage cal f now u g w in (g', v)
run_call cal (clears fails) g w = let (g', v, d) = clear_accounting_block fails g w in (g', v)

unfoldable pub run_calls :
    Calendar → List GateCall → CloudBudgetGate → World → CloudBudgetGate × World
run_calls cal [] g w = (g, w)
run_calls cal (c ∷ cs) g w = let (g', v) = run_call cal c g w in run_calls cal cs g' v
