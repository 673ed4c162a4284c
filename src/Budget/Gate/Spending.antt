-- ===== src/Budget/Gate/Spending.antt =====
-- The money that `CloudBudgetGate` of core/cloud_budget.py books, against its USD caps.
use gestalt_workframe.Prelude.{ℕ, ◌+◌, ◌≤◌, ◌≡◌, sym, String, true, Option, none, some, ◌∷◌, arith}
use gestalt_workframe.Prelude.Int.{pos, pos_part}
use mathlib.Core.Path.{subst₂}
use native.Mathlib.Nat.{le_trans, le_refl, add-le-add, mul-le-mul}
use gestalt_workframe.Budget.Clock.{Calendar, IsCalendar}
use gestalt_workframe.Budget.Database.{World, UsageEvent, usd_since}
use gestalt_workframe.Budget.Config.{CloudBudgetConfig}
use gestalt_workframe.Budget.Gate.Defs.{
  CloudBudgetGate, Faults, Request, Usage, gate_init, price_or, config_price, input_cost,
  output_cost, estimate_cost, set_accounting_block,
}
use gestalt_workframe.Budget.Gate.Methods.{reserve, day_usd, month_usd, count_call}
use gestalt_workframe.Budget.Gate.Recording.{
  record_usage, record_tokens, usage_transaction, usage_event, log_event,
}
use gestalt_workframe.Budget.Gate.Frame.{announce-SameLedger, config-gate_init}
use gestalt_workframe.Budget.Gate.Admission.{Within, reserve_iff, reserve_passed}

config_price-le : (p : Option ℕ) (d : ℕ) → config_price p d ≤ price_or p d
unfolding config_price price_or
config_price-le none d = le_refl d
config_price-le (some p) d = ground arith

-- What a call costs, at the price of its route or else the configured one.
pub call_cost : CloudBudgetConfig → ℕ → ℕ → Option ℕ → Option ℕ → ℕ
call_cost c i o ip op = input_cost c i ip + output_cost c o op

-- A call that uses no more tokens than were estimated costs no more than was estimated.
pub call_cost-le-estimate_cost :
    (c : CloudBudgetConfig) (i j o p : ℕ) (ip op : Option ℕ)
    → i ≤ j
    → o ≤ p
    → call_cost c i o ip op ≤ estimate_cost c j p ip op
unfolding call_cost estimate_cost
call_cost-le-estimate_cost c i j o p ip op h k =
    add-le-add (mul-le-mul h (config_price-le ip c.input_price_usd_per_million))
      (mul-le-mul k (config_price-le op c.output_price_usd_per_million))

module _ (cal : Calendar) (f : Faults) (now : ℕ) where
  -- the event of a call is added, or none is
  usd-usage_transaction :
      (since : ℕ) (e : UsageEvent) (g : CloudBudgetGate) (w : World) (x y : Option String)
      → usd_since since (usage_transaction cal f now e g w x y).1.db.events
        ≤ usd_since since w.db.events + e.total_cost_usd
  unfolding usage_transaction set_accounting_block usd_since
  usd-usage_transaction since e g w (some x) y = ground arith
  usd-usage_transaction since e g w none (some x) = ground arith
  usd-usage_transaction since e g w none none =
      rw ((announce-SameLedger cal f now e g (log_event e w)).events) (ground arith)

  -- Whatever fails, booking a call adds at most its cost to the sum since any instant.
  pub usd-record_usage :
      (since : ℕ) (u : Usage) (g : CloudBudgetGate) (w : World) (i o : ℕ)
      → u.input_tokens ≡ some (pos i)
      → u.output_tokens ≡ some (pos o)
      → usd_since since (record_usage cal f now u g w).1.db.events
        ≤ usd_since since w.db.events + call_cost g.config i o u.input_price u.output_price
  unfolding record_usage record_tokens usage_event call_cost
  usd-record_usage since u g w i o hi ho = ground (
    arith,
    config-gate_init f g,
    usd-usage_transaction since (usage_event (gate_init f g).config now u i o) (gate_init f g) w
        f.transaction f.after_commit,
  )

-- The use since an instant after a reservation at one instant and the booking of its call at another.
abbrev pub after_call :
    Calendar → Faults → Faults → ℕ → ℕ → Request → Usage → CloudBudgetGate → World → World
after_call cal f f' now now' r u g w =
    (record_usage cal f' now' u (reserve cal f now r g w).0 (reserve cal f now r g w).1).1

usd-after_call :
    (cal : Calendar) (f f' : Faults) (now now' : ℕ) (r : Request) (u : Usage) (g : CloudBudgetGate)
    (w : World) (i o since : ℕ)
    → (reserve cal f now r g w).2.allowed ≡ true
    → u.input_tokens ≡ some (pos i)
    → u.output_tokens ≡ some (pos o)
    → u.input_price ≡ r.input_price
    → u.output_price ≡ r.output_price
    → i ≤ pos_part r.estimated_input_tokens
    → o ≤ pos_part r.requested_output_tokens
    → usd_since since (after_call cal f f' now now' r u g w).db.events
      ≤ usd_since since w.db.events
        + estimate_cost g.config
            (pos_part r.estimated_input_tokens)
            (pos_part r.requested_output_tokens)
            r.input_price
            r.output_price
usd-after_call cal f f' now now' r u g w i o since allowed hi ho ip op li lo =
    let passed = reserve_passed cal f now r g w allowed in
    let cheap = call_cost-le-estimate_cost g.config i _ o _ r.input_price r.output_price li lo in
    let booked =
      usd-record_usage cal f' now' since u (gate_init f g) (count_call cal now r.session_id w) i o
        hi ho in
    subst₂
      (λ g' v.
        usd_since since (record_usage cal f' now' u g' v).1.db.events
        ≤ usd_since since w.db.events
          + estimate_cost g.config (pos_part r.estimated_input_tokens)
              (pos_part r.requested_output_tokens) r.input_price r.output_price)
      (sym passed.6) (sym passed.7)
      (le_trans booked (add-le-add (le_refl _) (rw (config-gate_init, ip, op) cheap)))

Within-le : (limit : ℕ) {m n : ℕ} → m ≤ n → Within limit n → Within limit m
Within-le limit h k = ground arith

-- A call that `reserve` admitted, and that used no more tokens than it asked for at the prices it
-- asked for, leaves the day's and the month's sum within the USD caps that are set, when nothing else
-- was booked between the two and both fall on one day and in one month; whatever fails on the way.
pub after_call-Within :
    (cal : Calendar) (f f' : Faults) (now now' : ℕ) (r : Request) (u : Usage) (g : CloudBudgetGate)
    (w : World) (i o : ℕ)
    → (reserve cal f now r g w).2.allowed ≡ true
    → cal.day now' ≡ cal.day now
    → cal.month now' ≡ cal.month now
    → u.input_tokens ≡ some (pos i)
    → u.output_tokens ≡ some (pos o)
    → u.input_price ≡ r.input_price
    → u.output_price ≡ r.output_price
    → i ≤ pos_part r.estimated_input_tokens
    → o ≤ pos_part r.requested_output_tokens
    → Within g.config.max_daily_usd (day_usd cal now' (after_call cal f f' now now' r u g w).db)
      × Within g.config.max_monthly_usd
          (month_usd cal now' (after_call cal f f' now now' r u g w).db)
unfolding day_usd month_usd
after_call-Within cal f f' now now' r u g w i o allowed sd sm hi ho ip op li lo =
    let room = ((reserve_iff cal f now r g w).0 allowed).room in
    let spent =
      λ (since : ℕ). usd-after_call cal f f' now now' r u g w i o since allowed hi ho ip op li lo in
    (
      rw sd (Within-le _ (spent (cal.day_start (cal.day now))) room.day_usd_room),
      rw sm (Within-le _ (spent (cal.month_start (cal.month now))) room.month_usd_room),
    )

events-usage_transaction :
    (cal : Calendar) (f : Faults) (now : ℕ) (e : UsageEvent) (g : CloudBudgetGate) (w : World)
    (x y : Option String)
    → (usage_transaction cal f now e g w x y).2.allowed ≡ true
    → (usage_transaction cal f now e g w x y).1.db.events ≡ e ∷ w.db.events
unfolding usage_transaction
events-usage_transaction cal f now e g w (some x) y h = cc
events-usage_transaction cal f now e g w none (some x) h = cc
events-usage_transaction cal f now e g w none none h =
    (announce-SameLedger cal f now e g (log_event e w)).events

events-record_usage :
    (cal : Calendar) (f : Faults) (now : ℕ) (u : Usage) (g : CloudBudgetGate) (w : World) (i o : ℕ)
    → g.config.enabled ≡ true
    → u.input_tokens ≡ some (pos i)
    → u.output_tokens ≡ some (pos o)
    → (record_usage cal f now u g w).2.allowed ≡ true
    → (record_usage cal f now u g w).1.db.events ≡ usage_event g.config now u i o ∷ w.db.events
unfolding record_usage record_tokens
events-record_usage cal f now u g w i o on hi ho recorded = ground (
  arith,
  config-gate_init f g,
  events-usage_transaction cal f now (usage_event (gate_init f g).config now u i o) (gate_init f g)
      w f.transaction f.after_commit,
)

-- When an enabled gate answers that it has recorded a call, the sums of the day and of the month have
-- grown by exactly what the call cost.
pub usage_booked :
    (cal : Calendar) (f : Faults) (now : ℕ) (u : Usage) (g : CloudBudgetGate) (w : World) (i o : ℕ)
    → IsCalendar cal
    → g.config.enabled ≡ true
    → u.input_tokens ≡ some (pos i)
    → u.output_tokens ≡ some (pos o)
    → (record_usage cal f now u g w).2.allowed ≡ true
    → (day_usd cal now (record_usage cal f now u g w).1.db
        ≡ day_usd cal now w.db + call_cost g.config i o u.input_price u.output_price)
      × (month_usd cal now (record_usage cal f now u g w).1.db
          ≡ month_usd cal now w.db + call_cost g.config i o u.input_price u.output_price)
unfolding day_usd month_usd usd_since usage_event call_cost
usage_booked cal f now u g w i o is_cal on hi ho recorded =
    rw (events-record_usage cal f now u g w i o on hi ho recorded) (
      ground (arith, is_cal.day_begun now),
      ground (arith, is_cal.day_begun now, is_cal.month_begun now),
    )
