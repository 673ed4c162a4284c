-- ===== src/Budget/Gate/Accounting.antt =====
-- The accounting block of `CloudBudgetGate` of core/cloud_budget.py: after a call whose cost could not
-- be booked, no call is admitted until an operator lifts the block.
use gestalt_workframe.Prelude.{
  ℕ, ◌≡◌, ◌⊎◌, inl, inr, String, Bool, true, false, not, Option, none, some, List, [], ◌∷◌, arith,
  All, ◌||◌, text_key, Bool-cases,
}
use gestalt_workframe.Prelude.Int.{ℤ, pos, negsuc}
use gestalt_workframe.Prelude.Assoc.{get, get-put_self}
use gestalt_workframe.Budget.Clock.{Calendar}
use gestalt_workframe.Budget.Database.{World, Reason, UsageEvent}
use gestalt_workframe.Budget.Gate.Defs.{
  CloudBudgetGate, Faults, Request, Usage, gate_init, accounting_blocked, set_accounting_block,
}
use gestalt_workframe.Budget.Gate.Methods.{reserve, reserve_sqlite}
use gestalt_workframe.Budget.Gate.Recording.{
  record_usage, record_tokens, usage_transaction, usage_event, log_event, clear_accounting_block,
}
use gestalt_workframe.Budget.Gate.Frame.{announce-SameLedger, config-gate_init}
use gestalt_workframe.Budget.Gate.Calls.{
  GateCall, reserves, asks, records, clears, run_call, run_calls, world-availability,
}

-- A reason to block is stored.
abbrev pub IsBlocked : World → Type 0
IsBlocked w = (r : Reason) × (get "last_accounting_error" w.db.state ≡ some (some r))

IsBlocked-set :
    (f : Faults) (g : CloudBudgetGate) (r : Reason) (w : World)
    → IsBlocked w
    → IsBlocked (set_accounting_block f g.config r w)
unfolding set_accounting_block
IsBlocked-set f g r w h = elim (Bool-cases (not g.config.enabled || f.block_write)) [
  | inl lost ↦ rw lost h
  | inr written ↦ rw written (r, get-put_self "last_accounting_error" (some r) w.db.state)
]

reserve_refused-blocked :
    (cal : Calendar) (f : Faults) (now : ℕ) (r : Request) (g : CloudBudgetGate) (w : World)
    → IsBlocked w
    → f.state_read ≡ false
    → (reserve cal f now r g w).2.allowed ≡ false
unfolding reserve reserve_sqlite accounting_blocked
reserve_refused-blocked cal f now r g w (x, h) read = ground arith

-- Both counts are there and are not negative.
unfoldable pub has_tokens : Option ℤ → Option ℤ → Bool
has_tokens (some (pos i)) (some (pos o)) = true
has_tokens _ _ = false

-- No method but a successful `clear_accounting_block` lifts a block.
unfoldable pub lifts : GateCall → Bool
lifts (clears false) = true
lifts _ = false

module _ (cal : Calendar) (f : Faults) (now : ℕ) where
  state-reserve :
      (r : Request) (g : CloudBudgetGate) (w : World)
      → ((reserve cal f now r g w).1.db.state ≡ w.db.state)
        ⊎ ((reserve cal f now r g w).1.db.state
            ≡ (set_accounting_block f g.config Reason.reservation_failed w).db.state)
  unfolding reserve reserve_sqlite
  state-reserve r g w = ground (arith, config-gate_init f g)

  reserve-IsBlocked :
      (r : Request) (g : CloudBudgetGate) (w : World)
      → IsBlocked w
      → IsBlocked (reserve cal f now r g w).1
  reserve-IsBlocked r g w h = elim (state-reserve r g w) [
    | inl kept ↦ rw kept h
    | inr failed ↦ rw failed (IsBlocked-set f g Reason.reservation_failed w h)
  ]

  usage_transaction-IsBlocked :
      (e : UsageEvent) (g : CloudBudgetGate) (w : World) (x y : Option String)
      → IsBlocked w
      → IsBlocked (usage_transaction cal f now e g w x y).1
  unfolding usage_transaction
  usage_transaction-IsBlocked e g w (some x) y h = IsBlocked-set f g _ w h
  usage_transaction-IsBlocked e g w none (some x) h = IsBlocked-set f g _ (log_event e w) h
  usage_transaction-IsBlocked e g w none none h =
      rw ((announce-SameLedger cal f now e g (log_event e w)).state) h

  record_tokens-IsBlocked :
      (u : Usage) (g : CloudBudgetGate) (w : World) (i o : Option ℤ)
      → IsBlocked w
      → IsBlocked (record_tokens cal f now u g w i o).1
  unfolding record_tokens
  record_tokens-IsBlocked u g w (some (pos i)) (some (pos o)) h =
      elim (Bool-cases (not g.store_ready)) [
        | inl down ↦ rw down h
        | inr up ↦ rw up (
            usage_transaction-IsBlocked (usage_event g.config now u i o) g w f.transaction
              f.after_commit h)
      ]
  record_tokens-IsBlocked u g w (some (pos i)) (some (negsuc o)) h = IsBlocked-set f g _ w h
  record_tokens-IsBlocked u g w (some (pos i)) none h = IsBlocked-set f g _ w h
  record_tokens-IsBlocked u g w (some (negsuc i)) (some o) h = IsBlocked-set f g _ w h
  record_tokens-IsBlocked u g w (some (negsuc i)) none h = IsBlocked-set f g _ w h
  record_tokens-IsBlocked u g w none o h = IsBlocked-set f g _ w h

  record_usage-IsBlocked :
      (u : Usage) (g : CloudBudgetGate) (w : World)
      → IsBlocked w
      → IsBlocked (record_usage cal f now u g w).1
  unfolding record_usage
  record_usage-IsBlocked u g w h = elim (Bool-cases (not g.config.enabled)) [
    | inl off ↦ rw off h
    | inr on ↦ rw on (record_tokens-IsBlocked u (gate_init f g) w u.input_tokens u.output_tokens h)
  ]

clear-IsBlocked :
    (fails : Bool) (g : CloudBudgetGate) (w : World)
    → fails ≡ true
    → IsBlocked w
    → IsBlocked (clear_accounting_block fails g w).1
unfolding clear_accounting_block
clear-IsBlocked fails g w failed (x, h) = (x, ground arith)

run_calls-IsBlocked :
    (cal : Calendar) (cs : List GateCall) (g : CloudBudgetGate) (w : World)
    → All (λ c. lifts c ≡ false) cs
    → IsBlocked w
    → IsBlocked (run_calls cal cs g w).1
unfolding run_calls run_call lifts
run_calls-IsBlocked cal [] g w kept h = h
run_calls-IsBlocked cal (reserves f now r ∷ cs) g w kept h =
    run_calls-IsBlocked cal cs _ _ kept.1 (reserve-IsBlocked cal f now r g w h)
run_calls-IsBlocked cal (asks f now i o ∷ cs) g w kept h =
    run_calls-IsBlocked cal cs _ _ kept.1 (rw world-availability h)
run_calls-IsBlocked cal (records f now u ∷ cs) g w kept h =
    run_calls-IsBlocked cal cs _ _ kept.1 (record_usage-IsBlocked cal f now u g w h)
run_calls-IsBlocked cal (clears fails ∷ cs) g w kept h =
    run_calls-IsBlocked cal cs _ _ kept.1
      (clear-IsBlocked fails g w (unfold lifts in ground arith) h)

IsBlocked-written :
    (f : Faults) (g : CloudBudgetGate) (r : Reason) (w : World)
    → g.config.enabled ≡ true
    → f.block_write ≡ false
    → IsBlocked (set_accounting_block f g.config r w)
unfolding set_accounting_block
IsBlocked-written f g r w on written =
    rw (on, written) (r, get-put_self "last_accounting_error" (some r) w.db.state)

bad_tokens-IsBlocked :
    (cal : Calendar) (f : Faults) (now : ℕ) (u : Usage) (g : CloudBudgetGate) (w : World)
    (i o : Option ℤ)
    → g.config.enabled ≡ true
    → f.block_write ≡ false
    → has_tokens i o ≡ false
    → IsBlocked (record_tokens cal f now u g w i o).1
unfolding record_tokens has_tokens
bad_tokens-IsBlocked cal f now u g w (some (pos i)) (some (pos o)) on written bad = cc
bad_tokens-IsBlocked cal f now u g w (some (pos i)) (some (negsuc o)) on written bad =
    IsBlocked-written f g _ w on written
bad_tokens-IsBlocked cal f now u g w (some (pos i)) none on written bad =
    IsBlocked-written f g _ w on written
bad_tokens-IsBlocked cal f now u g w (some (negsuc i)) (some o) on written bad =
    IsBlocked-written f g _ w on written
bad_tokens-IsBlocked cal f now u g w (some (negsuc i)) none on written bad =
    IsBlocked-written f g _ w on written
bad_tokens-IsBlocked cal f now u g w none o on written bad = IsBlocked-written f g _ w on written

config-gate_init-enabled :
    (f : Faults) (g : CloudBudgetGate)
    → g.config.enabled ≡ true
    → (gate_init f g).config.enabled ≡ true
config-gate_init-enabled f g on = rw config-gate_init on

bad_usage-IsBlocked :
    (cal : Calendar) (f : Faults) (now : ℕ) (u : Usage) (g : CloudBudgetGate) (w : World)
    → g.config.enabled ≡ true
    → f.block_write ≡ false
    → has_tokens u.input_tokens u.output_tokens ≡ false
    → IsBlocked (record_usage cal f now u g w).1
unfolding record_usage
bad_usage-IsBlocked cal f now u g w on written bad = simp on (
    bad_tokens-IsBlocked cal f now u (gate_init f g) w u.input_tokens u.output_tokens
      (config-gate_init-enabled f g on) written bad)

-- Once a call of an enabled gate reports its token counts as missing or negative, and the block is
-- written, no later reservation is admitted, whatever calls come in between, unless one of them lifts
-- the block or the read of the block fails.
pub bad_usage_stops_spending :
    (cal : Calendar) (f f' : Faults) (now now' : ℕ) (u : Usage) (cs : List GateCall) (r : Request)
    (g : CloudBudgetGate) (w : World)
    → g.config.enabled ≡ true
    → f.block_write ≡ false
    → has_tokens u.input_tokens u.output_tokens ≡ false
    → All (λ c. lifts c ≡ false) cs
    → f'.state_read ≡ false
    → let (g', v, d) = record_usage cal f now u g w in
      let (g'', v') = run_calls cal cs g' v in (reserve cal f' now' r g'' v').2.allowed ≡ false
bad_usage_stops_spending cal f f' now now' u cs r g w on written bad kept read =
    reserve_refused-blocked cal f' now' r _ _
      (run_calls-IsBlocked cal cs _ _ kept (bad_usage-IsBlocked cal f now u g w on written bad))
      read
