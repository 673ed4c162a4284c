-- ===== src/Budget/Gate/Caps.antt =====
-- The call caps of `CloudBudgetGate` of core/cloud_budget.py, over any sequence of its calls.
use gestalt_workframe.Prelude.{
  ℕ, ◌+◌, ◌≡◌, String, Option, List, [], ◌∷◌, inl, inr, arith, ◌==◌, text_key, Bool-cases,
  if◌then◌else◌,
}
use gestalt_workframe.Prelude.Assoc.{Assoc}
use gestalt_workframe.Budget.Clock.{Calendar}
use gestalt_workframe.Budget.Database.{CounterKey, counter_key_eq, World}
use gestalt_workframe.Budget.Config.{CloudBudgetConfig}
use gestalt_workframe.Budget.Gate.Defs.{
  CloudBudgetGate, Faults, Request, session_key, session_name, count_of, bump, bump_all,
}
use gestalt_workframe.Budget.Gate.Methods.{reserve, count_call, used_by}
use gestalt_workframe.Budget.Gate.Recording.{clear_accounting_block}
use gestalt_workframe.Budget.Gate.Admission.{Within, HasRoom, reserve_iff, reserve_passed}
use gestalt_workframe.Budget.Gate.Frame.{count_of-bump}
use gestalt_workframe.Budget.Gate.Calls.{
  GateCall, reserves, asks, records, clears, run_call, run_calls, config-reserve,
  config-availability, config-record_usage, world-availability, counters-reserve_refused,
  counters-record_usage,
}

pub record IsWithinCaps (c : CloudBudgetConfig) (cs : Assoc CounterKey ℕ) : Type 0 where
  pub session_ok :
      (s : String) → Within c.max_calls_per_session (count_of (CounterKey.session s) cs)
  pub day_ok : (d : ℕ) → Within c.max_calls_per_day (count_of (CounterKey.day d) cs)
  pub month_ok : (m : ℕ) → Within c.max_calls_per_month (count_of (CounterKey.month m) cs)

-- A successful reservation adds one to the counts of its session, of the day and of the month.
pub count_of-count_call :
    (cal : Calendar) (now : ℕ) (s : Option String) (j : CounterKey) (w : World)
    → count_of j (count_call cal now s w).db.counters
      ≡ (if session_key s == j then 1 else 0)
        + ((if CounterKey.day (cal.day now) == j then 1 else 0)
            + (if CounterKey.month (cal.month now) == j then 1 else 0))
        + count_of j w.db.counters
unfolding bump_all session_key
count_of-count_call cal now s j w =
    let k : CounterKey = session_key s in
    let d : CounterKey = CounterKey.day (cal.day now) in
    let m : CounterKey = CounterKey.month (cal.month now) in
    let cs = w.db.counters in
    ground (
      arith,
      count_of-bump m j (bump d (bump k cs)),
      count_of-bump d j (bump k cs),
      count_of-bump k j cs,
    )

count_call-IsWithinCaps :
    (cal : Calendar) (now : ℕ) (r : Request) (c : CloudBudgetConfig) (w : World) (cost : ℕ)
    → HasRoom c (used_by cal now (count_of (session_key r.session_id) w.db.counters) w.db) cost
    → IsWithinCaps c w.db.counters
    → IsWithinCaps c (count_call cal now r.session_id w).db.counters
unfolding session_key
count_call-IsWithinCaps cal now r c w cost room h = record {
  session_ok = λ s. ground (
    arith,
    count_of-count_call cal now r.session_id (CounterKey.session s) w,
    text_key.agree_iff (session_name "anonymous" r.session_id) s,
    room.session_room,
    h.session_ok s,
  );
  day_ok = λ d. ground (
    arith,
    count_of-count_call cal now r.session_id (CounterKey.day d) w,
    room.day_room,
    h.day_ok d,
  );
  month_ok = λ m. ground (
    arith,
    count_of-count_call cal now r.session_id (CounterKey.month m) w,
    room.month_room,
    h.month_ok m,
  );
}

reserve-IsWithinCaps :
    (cal : Calendar) (f : Faults) (now : ℕ) (r : Request) (g : CloudBudgetGate) (w : World)
    → IsWithinCaps g.config w.db.counters
    → IsWithinCaps g.config (reserve cal f now r g w).1.db.counters
reserve-IsWithinCaps cal f now r g w h = elim (Bool-cases (reserve cal f now r g w).2.allowed) [
  | inl admitted ↦
      let left = reserve_passed cal f now r g w admitted in
      rw (left.7) (
        count_call-IsWithinCaps cal now r g.config w _
          ((reserve_iff cal f now r g w).0 admitted).room h)
  | inr refused ↦ rw (counters-reserve_refused cal f now g w r refused) h
]

run_call-IsWithinCaps :
    (cal : Calendar) (c : GateCall) (g : CloudBudgetGate) (w : World)
    → IsWithinCaps g.config w.db.counters
    → ((run_call cal c g w).0.config ≡ g.config)
      × IsWithinCaps g.config (run_call cal c g w).1.db.counters
unfolding run_call
run_call-IsWithinCaps cal (reserves f now r) g w h =
    (config-reserve cal f now g w r, reserve-IsWithinCaps cal f now r g w h)
run_call-IsWithinCaps cal (asks f now i o) g w h =
    (config-availability cal f now g w i o, rw world-availability h)
run_call-IsWithinCaps cal (records f now u) g w h =
    (config-record_usage cal f now g w u, rw counters-record_usage h)
run_call-IsWithinCaps cal (clears fails) g w h =
    unfold clear_accounting_block in (ground arith, ground arith)

-- Over any calls of the gate, by any sessions, at any instants and with any failures, no session, day
-- or month has more counted calls than its cap, where it has one and had no more to begin with.
pub run_calls-IsWithinCaps :
    (cal : Calendar) (cs : List GateCall) (g : CloudBudgetGate) (w : World)
    → IsWithinCaps g.config w.db.counters
    → IsWithinCaps g.config (run_calls cal cs g w).1.db.counters
unfolding run_calls
run_calls-IsWithinCaps cal [] g w h = h
run_calls-IsWithinCaps cal (c ∷ cs) g w h =
    let (same, kept) = run_call-IsWithinCaps cal c g w h in
    rw same at
      (run_calls-IsWithinCaps cal cs (run_call cal c g w).0 (run_call cal c g w).1 (rw same kept))
