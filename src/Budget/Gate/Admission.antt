-- ===== src/Budget/Gate/Admission.antt =====
-- When `CloudBudgetGate.reserve` of core/cloud_budget.py admits a call, and how it relates to
-- `availability`.
use gestalt_workframe.Prelude.{◌⊎◌, ℕ, ◌+◌, ◌≤◌, ◌≡◌, ◌↔◌, true, false, Option, none, arith}
use gestalt_workframe.Prelude.Int.{ℤ, pos_part}
use native.Mathlib.Nat.{add-le-add, mul-le-mul_right}
use gestalt_workframe.Budget.Clock.{Calendar}
use gestalt_workframe.Budget.Database.{counter_key_eq, World, Reason}
use gestalt_workframe.Budget.Config.{CloudBudgetConfig}
use gestalt_workframe.Budget.Gate.Defs.{
  CloudBudgetGate, Faults, Request, Used, gate_init, session_key, cap_exhausted_reason,
  estimate_cost, preflight_block_reason, count_of, accounting_blocked,
}
use gestalt_workframe.Budget.Gate.Frame.{config-gate_init}
use gestalt_workframe.Budget.Gate.Methods.{
  reserve, reserve_sqlite, availability, count_call, used_by,
}

-- The token caps that are set hold; they count only where a USD cap of the day or the month is set.
pub record TokensFit (c : CloudBudgetConfig) (input output : ℕ) : Type 0 where
  pub input_fits :
      (c.max_daily_usd + c.max_monthly_usd ≡ 0)
      ⊎ (c.max_input_tokens_per_call ≡ 0)
      ⊎ (input ≤ c.max_input_tokens_per_call)
  pub output_fits :
      (c.max_daily_usd + c.max_monthly_usd ≡ 0)
      ⊎ (c.max_output_tokens_per_call ≡ 0)
      ⊎ (output ≤ c.max_output_tokens_per_call)

pub preflight_block_reason_iff :
    (c : CloudBudgetConfig) (input output : ℕ)
    → (preflight_block_reason c input output ≡ none) ↔ TokensFit c input output
unfolding preflight_block_reason
preflight_block_reason_iff c input output = (to, from)
  where
    to : preflight_block_reason c input output ≡ none → TokensFit c input output
    to h = ground arith

    from : TokensFit c input output → preflight_block_reason c input output ≡ none
    from h = ground (arith, h.input_fits, h.output_fits)

-- A cap of 0 is no cap.
abbrev pub Within : ℕ → ℕ → Type 0
Within limit count = (limit ≡ 0) ⊎ (count ≤ limit)

-- The caps on the calls of the session, the day and the month, and on the USD of the day and the month,
-- have room for one more call at the estimated cost where they are set.
pub record HasRoom (c : CloudBudgetConfig) (u : Used) (cost : ℕ) : Type 0 where
  pub session_room : Within c.max_calls_per_session (u.session_calls + 1)
  pub day_room : Within c.max_calls_per_day (u.day_calls + 1)
  pub month_room : Within c.max_calls_per_month (u.month_calls + 1)
  pub day_usd_room : Within c.max_daily_usd (u.day_usd + cost)
  pub month_usd_room : Within c.max_monthly_usd (u.month_usd + cost)

pub cap_exhausted_reason_iff :
    (c : CloudBudgetConfig) (u : Used) (input output : ℕ) (ip op : Option ℕ)
    → (cap_exhausted_reason c u input output ip op ≡ none)
      ↔ HasRoom c u (estimate_cost c input output ip op)
unfolding cap_exhausted_reason
cap_exhausted_reason_iff c u input output ip op = (to, from)
  where
    to :
        cap_exhausted_reason c u input output ip op ≡ none
        → HasRoom c u (estimate_cost c input output ip op)
    to h = ground arith

    from :
        HasRoom c u (estimate_cost c input output ip op)
        → cap_exhausted_reason c u input output ip op ≡ none
    from h =
        ground (arith, h.session_room, h.day_room, h.month_room, h.day_usd_room, h.month_usd_room)

module _ (cal : Calendar) (f : Faults) (now : ℕ) (r : Request) (g : CloudBudgetGate)
    (w : World) where
  abbrev input : ℕ
  input = pos_part r.estimated_input_tokens

  abbrev output : ℕ
  output = pos_part r.requested_output_tokens

  -- What a reservation checks.
  pub record IsAdmissible : Type 0 where
    pub enabled : g.config.enabled ≡ true
    pub tokens_fit : TokensFit g.config input output
    pub ready : (gate_init f g).store_ready ≡ true
    pub unblocked : accounting_blocked f w ≡ false
    pub committed : f.transaction ≡ none
    pub room :
        HasRoom g.config
          (used_by cal now (count_of (session_key r.session_id) w.db.counters) w.db)
          (estimate_cost g.config input output r.input_price r.output_price)

  abbrev caps : Option Reason
  caps =
      cap_exhausted_reason g.config
        (used_by cal now (count_of (session_key r.session_id) w.db.counters) w.db) input output
        r.input_price r.output_price

  -- The guards that an admitted call has passed, and what it leaves.
  pub reserve_passed :
      (reserve cal f now r g w).2.allowed ≡ true
      → (g.config.enabled ≡ true)
        × (preflight_block_reason g.config input output ≡ none)
        × ((gate_init f g).store_ready ≡ true)
        × (accounting_blocked f w ≡ false)
        × (f.transaction ≡ none)
        × (caps ≡ none)
        × ((reserve cal f now r g w).0 ≡ gate_init f g)
        × ((reserve cal f now r g w).1 ≡ count_call cal now r.session_id w)
  unfolding reserve reserve_sqlite
  reserve_passed h = ground (arith, config-gate_init f g)

  pub reserve_admits :
      g.config.enabled ≡ true
      → preflight_block_reason g.config input output ≡ none
      → (gate_init f g).store_ready ≡ true
      → accounting_blocked f w ≡ false
      → f.transaction ≡ none
      → caps ≡ none
      → (reserve cal f now r g w).2.allowed ≡ true
  unfolding reserve reserve_sqlite
  reserve_admits e p s a t c = ground (arith, config-gate_init f g)

  -- `reserve` admits a call exactly when the gate is enabled, the tables are there, no accounting block is
  -- read, the transaction commits, the tokens fit the caps on a call's tokens, which count only where a USD
  -- cap of the day or the month is set, and one more call at the estimated cost fits those caps that are
  -- set on the calls of the session, the day and the month and on the USD of the day and the month. The
  -- cap on the calls of a turn plays no part.
  pub reserve_iff : ((reserve cal f now r g w).2.allowed ≡ true) ↔ IsAdmissible
  reserve_iff = (
    (λ h.
        let (e, p, s, a, t, c, g', w') = reserve_passed h in
        record {
          enabled = e;
          tokens_fit = (preflight_block_reason_iff g.config input output).0 p;
          ready = s;
          unblocked = a;
          committed = t;
          room =
              (cap_exhausted_reason_iff g.config _ input output r.input_price r.output_price).0 c;
        }),
    (λ h.
        reserve_admits h.enabled ((preflight_block_reason_iff g.config input output).1 h.tokens_fit)
          h.ready h.unblocked h.committed
          ((cap_exhausted_reason_iff g.config _ input output r.input_price r.output_price).1
            h.room)),
  )

estimate_cost_mono :
    (c : CloudBudgetConfig) (i j o p : ℕ) (ip op : Option ℕ)
    → i ≤ j
    → o ≤ p
    → estimate_cost c i o ip op ≤ estimate_cost c j p ip op
unfolding estimate_cost
estimate_cost_mono c i j o p ip op h k = add-le-add (mul-le-mul_right _ h) (mul-le-mul_right _ k)

-- A call that asks for less is admitted wherever one that asks for more is, with the same session,
-- prices, instant and store.
pub reserve_antitone :
    (cal : Calendar) (f : Faults) (now : ℕ) (r : Request) (i o : ℤ) (g : CloudBudgetGate)
    (w : World)
    → pos_part i ≤ pos_part r.estimated_input_tokens
    → pos_part o ≤ pos_part r.requested_output_tokens
    → (reserve cal f now r g w).2.allowed ≡ true
    → (reserve cal f now
        (record r { estimated_input_tokens = i; requested_output_tokens = o })
        g
        w).2.allowed
      ≡ true
reserve_antitone cal f now r i o g w h k allowed =
    let a = (reserve_iff cal f now r g w).0 allowed in
    let cheaper =
      estimate_cost_mono g.config (pos_part i) (pos_part r.estimated_input_tokens) (pos_part o)
        (pos_part r.requested_output_tokens) r.input_price r.output_price h k in
    (reserve_iff cal f now (record r { estimated_input_tokens = i; requested_output_tokens = o }) g
        w).1
      (record {
        enabled = a.enabled;
        tokens_fit = record {
          input_fits = ground (arith, a.tokens_fit.input_fits);
          output_fits = ground (arith, a.tokens_fit.output_fits);
        };
        ready = a.ready;
        unblocked = a.unblocked;
        committed = a.committed;
        room = record {
          session_room = a.room.session_room;
          day_room = a.room.day_room;
          month_room = a.room.month_room;
          day_usd_room = ground (arith, a.room.day_usd_room);
          month_usd_room = ground (arith, a.room.month_usd_room);
        };
      })

availability_admits :
    (cal : Calendar) (f : Faults) (now : ℕ) (i o : ℤ) (g : CloudBudgetGate) (w : World)
    → g.config.enabled ≡ true
    → preflight_block_reason g.config (pos_part i) (pos_part o) ≡ none
    → (gate_init f g).store_ready ≡ true
    → accounting_blocked f w ≡ false
    → f.transaction ≡ none
    → cap_exhausted_reason g.config (used_by cal now 0 w.db) (pos_part i) (pos_part o) none none
      ≡ none
    → (availability cal f now i o g w).2.allowed ≡ true
unfolding availability
availability_admits cal f now i o g w e p s a t c = ground (arith, config-gate_init f g)

-- Whatever `reserve` admits at the configured prices, `availability` reports as available under the
-- same circumstances: a preview never refuses what would be admitted.
pub availability_of_reserve :
    (cal : Calendar) (f : Faults) (now : ℕ) (r : Request) (g : CloudBudgetGate) (w : World)
    → r.input_price ≡ none
    → r.output_price ≡ none
    → (reserve cal f now r g w).2.allowed ≡ true
    → (availability cal f now r.estimated_input_tokens r.requested_output_tokens g w).2.allowed
      ≡ true
availability_of_reserve cal f now r g w ip op allowed =
    let a = (reserve_iff cal f now r g w).0 allowed in
    availability_admits cal f now r.estimated_input_tokens r.requested_output_tokens g w a.enabled
      ((preflight_block_reason_iff g.config _ _).1 a.tokens_fit) a.ready a.unblocked a.committed
      ((cap_exhausted_reason_iff g.config (used_by cal now 0 w.db) _ _ none none).1 (record {
        session_room = ground (arith, a.room.session_room);
        day_room = a.room.day_room;
        month_room = a.room.month_room;
        day_usd_room = rw ip at (rw op at a.room.day_usd_room);
        month_usd_room = rw ip at (rw op at a.room.month_usd_room);
      }))
