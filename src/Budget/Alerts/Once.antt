-- ===== src/Budget/Alerts/Once.antt =====
-- How often an alert is sent by calls of `check_and_alert` of core/budget_alerts.py that do not overlap.
use gestalt_workframe.Prelude.{
  ℕ, ◌+◌, ◌≤◌, ◌≡◌, refl, ◌⊎◌, inl, inr, String, Bool, true, false, ◌&&◌, ◌||◌, not, leb, some,
  List, [], ◌∷◌, ◌++◌, arith, nat_eq, ◌==◌, Bool-cases, if◌then◌else◌,
}
use native.Mathlib.Nat.{add-zero}
use gestalt_workframe.Prelude.Assoc.{get, get-put}
use gestalt_workframe.Budget.Clock.{Calendar}
use gestalt_workframe.Budget.Database.{
  AlertKey, alert_key_eq, empty_db, Notice, budget_threshold_crossed, high_session_cost, World,
}
use gestalt_workframe.Budget.Alerts.Defs.{
  AlertManager, AlertFaults, alert_init, pct_reached, should_fire, record_fired, send_alert,
  alert_of, fire_all, check_and_alert,
}

-- Is this the alert of the key, sent on the day?
abbrev pub is_alert_on : Calendar → AlertKey → ℕ → Notice → Bool
is_alert_on cal k d (budget_threshold_crossed a) =
    k == record { provider_id = a.provider_id; threshold_pct = a.threshold_pct }
    && nat_eq (cal.day a.fired_at) d
is_alert_on cal k d (high_session_cost s t c) = false

-- How many alerts of the key went out on the day.
pub sent_on : Calendar → AlertKey → ℕ → List Notice → ℕ
sent_on cal k d [] = 0
sent_on cal k d (n ∷ ns) = (if is_alert_on cal k d n then 1 else 0) + sent_on cal k d ns

pub sent_on-append :
    (cal : Calendar) (k : AlertKey) (d : ℕ) (ns : List Notice) (n : Notice)
    → sent_on cal k d (ns ++ n ∷ []) ≡ sent_on cal k d ns + (if is_alert_on cal k d n then 1 else 0)
unfolding sent_on
sent_on-append cal k d [] n = omega arith
sent_on-append cal k d (m ∷ ns) n = omega (arith, sent_on-append cal k d ns n)

-- What ties the webhook calls to the table on a day: each key was alerted at most once a day, has a
-- mark no older than its last alert, and no mark is of a later day.
pub record IsOnce (cal : Calendar) (today : ℕ) (w : World) : Type 0 where
  pub at_most : (k : AlertKey) (d : ℕ) → sent_on cal k d w.outbox ≤ 1
  pub marked :
      (k : AlertKey) (d : ℕ)
      → (sent_on cal k d w.outbox ≡ 0)
        ⊎ ((t : ℕ) × (get k w.db.alert_fired ≡ some t) × (d ≤ cal.day t))
  pub past : (k : AlertKey) (t : ℕ) → get k w.db.alert_fired ≡ some t → cal.day t ≤ today

module _ (cal : Calendar) (f : AlertFaults) (now : ℕ) (provider : String) (limit used : ℕ) where
  key_of : ℕ → AlertKey
  key_of t = record { provider_id = provider; threshold_pct = t }

  fired_world : ℕ → World → World
  fired_world t w =
      record_fired f now (key_of t) (send_alert (alert_of provider limit used now t) w)

  module _ (today t : ℕ) (w : World) (later : today ≤ cal.day now) (written : f.write t ≡ false)
      (fires : should_fire cal f now (key_of t) w ≡ true) (once : IsOnce cal today w) where
    get-fired :
        (k : AlertKey)
        → get k (fired_world t w).db.alert_fired
          ≡ (if key_of t == k then some now else get k w.db.alert_fired)
    unfolding fired_world record_fired send_alert key_of
    get-fired k = rw written (get-put (key_of t) k now w.db.alert_fired)

    sent-fired :
        (k : AlertKey) (d : ℕ)
        → sent_on cal k d (fired_world t w).outbox
          ≡ sent_on cal k d w.outbox + (if k == key_of t && nat_eq (cal.day now) d then 1 else 0)
    unfolding fired_world record_fired send_alert key_of alert_of
    sent-fired k d = rw written (
        sent_on-append cal k d w.outbox
          (budget_threshold_crossed (alert_of provider limit used now t)))

    -- no alert of this key has gone out today
    sent_today : sent_on cal (key_of t) (cal.day now) w.outbox ≡ 0
    unfolding should_fire
    sent_today = elim (once.marked (key_of t) (cal.day now)) [
      | inl none_sent ↦ none_sent
      | inr (fired_at, row, on_day) ↦ absurd (stale fired_at row on_day)
    ]
      where
        stale : (s : ℕ) → get (key_of t) w.db.alert_fired ≡ some s → cal.day now ≤ cal.day s → ⊥
        stale s row on_day = ground (arith, once.past (key_of t) s)

    get-fired_self :
        (k : AlertKey) → (k == key_of t) ≡ true → get k (fired_world t w).db.alert_fired ≡ some now
    get-fired_self k same =
        rw get-fired
          (ground (arith, alert_key_eq.agree_iff k (key_of t), alert_key_eq.agree_iff (key_of t) k))

    get-fired_ne :
        (k : AlertKey)
        → (k == key_of t) ≡ false
        → get k (fired_world t w).db.alert_fired ≡ get k w.db.alert_fired
    get-fired_ne k other =
        rw get-fired
          (ground (arith, alert_key_eq.agree_iff k (key_of t), alert_key_eq.agree_iff (key_of t) k))

    Marked : World → AlertKey → ℕ → Type 0
    Marked v k d =
        (sent_on cal k d v.outbox ≡ 0)
        ⊎ ((s : ℕ) × (get k v.db.alert_fired ≡ some s) × (d ≤ cal.day s))

    fired-Marked_self :
        (k : AlertKey) (d : ℕ) → (k == key_of t) ≡ true → Marked (fired_world t w) k d
    unfolding Marked
    fired-Marked_self k d same = elim (once.marked k d) [
      | inl unsent ↦ elim (Bool-cases (nat_eq (cal.day now) d)) [
        | inl now_too ↦ inr (now, get-fired_self k same, ground arith)
        | inr another ↦ inl (rw sent-fired (ground arith))
      ]
      | inr (s, row, on_day) ↦ inr (now, get-fired_self k same, omega (arith, once.past k s row))
    ]

    fired-Marked : (k : AlertKey) (d : ℕ) → Marked (fired_world t w) k d
    unfolding Marked
    fired-Marked k d = elim (Bool-cases (k == key_of t)) [
      | inl same ↦ fired-Marked_self k d same
      | inr other ↦
          rw (get-fired_ne k other) (rw sent-fired (rw other (rw add-zero (once.marked k d))))
    ]

    fired-IsOnce : IsOnce cal (cal.day now) (fired_world t w)
    unfolding Marked
    fired-IsOnce = record {
      at_most = λ k d.
          rw sent-fired
            (ground (arith, once.at_most k d, sent_today, alert_key_eq.agree_iff k (key_of t)));
      marked = fired-Marked;
      past = λ k s row. ground (arith, get-fired k, once.past k s);
    }

  IsOnce-later :
      (today : ℕ) (w : World)
      → today ≤ cal.day now
      → IsOnce cal today w
      → IsOnce cal (cal.day now) w
  IsOnce-later today w later once = record {
    at_most = once.at_most;
    marked = once.marked;
    past = λ k s row. omega (arith, once.past k s row);
  }

  -- one threshold, crossed or not
  turn-IsOnce :
      (today t : ℕ) (w : World)
      → today ≤ cal.day now
      → f.write t ≡ false
      → IsOnce cal today w
      → IsOnce cal (cal.day now) (
          if pct_reached limit used t && should_fire cal f now (key_of t) w
          then fired_world t w
          else w)
  turn-IsOnce today t w later written once = elim (Bool-cases (pct_reached limit used t)) [
    | inl crossed ↦ elim (Bool-cases (should_fire cal f now (key_of t) w)) [
      | inl fires ↦ rw (crossed, fires) (fired-IsOnce today t w later written fires once)
      | inr marked ↦ rw (crossed, marked) (IsOnce-later today w later once)
    ]
    | inr below ↦ rw below (IsOnce-later today w later once)
  ]

  -- the loop over the thresholds, where no mark fails to be written
  fire_all-IsOnce :
      (today : ℕ) (ts : List ℕ) (w : World)
      → today ≤ cal.day now
      → ((t : ℕ) → f.write t ≡ false)
      → IsOnce cal today w
      → IsOnce cal (cal.day now) (fire_all cal f now provider limit used ts w).0
  unfolding fire_all fired_world key_of
  fire_all-IsOnce today [] w later written once = IsOnce-later today w later once
  fire_all-IsOnce today (t ∷ ts) w later written once =
      fire_all-IsOnce (cal.day now) ts _ (omega arith) written
        (turn-IsOnce today t w later (written t) once)

  pub check_and_alert-IsOnce :
      (today : ℕ) (m : AlertManager) (w : World)
      → today ≤ cal.day now
      → ((t : ℕ) → f.write t ≡ false)
      → IsOnce cal today w
      → IsOnce cal (cal.day now) (check_and_alert cal f now provider limit used m w).1
  unfolding check_and_alert
  check_and_alert-IsOnce today m w later written once =
      elim (Bool-cases (not (alert_init f m).ready || not (alert_init f m).webhook_configured)) [
        | inl off ↦ rw off (IsOnce-later today w later once)
        | inr on ↦ rw on (elim (Bool-cases (leb limit 0)) [
          | inl free ↦ rw free (IsOnce-later today w later once)
          | inr capped ↦
              rw capped (fire_all-IsOnce today (alert_init f m).thresholds w later written once)
        ])
      ]

-- A call of `check_and_alert`: when, and with what.
pub record Check : Type 0 where
  pub now : ℕ
  pub faults : AlertFaults
  pub provider : String
  pub limit_usd : ℕ
  pub used_usd : ℕ

-- The calls of one manager, in order.
pub checks : Calendar → List Check → AlertManager → World → World
checks cal [] m w = w
checks cal (c ∷ cs) m w =
    let (m', v, fired) = check_and_alert cal c.faults c.now c.provider c.limit_usd c.used_usd m w in
    checks cal cs m' v

-- No call is of an earlier day than the one before it, and no mark fails to be written.
abbrev pub InOrder : Calendar → ℕ → List Check → Type 0
InOrder cal today [] = Unit
InOrder cal today (c ∷ cs) =
    (today ≤ cal.day c.now) × ((t : ℕ) → c.faults.write t ≡ false) × InOrder cal (cal.day c.now) cs

checks-IsOnce :
    (cal : Calendar) (cs : List Check) (today : ℕ) (m : AlertManager) (w : World)
    → InOrder cal today cs
    → IsOnce cal today w
    → (k : AlertKey) (d : ℕ) → sent_on cal k d (checks cal cs m w).outbox ≤ 1
unfolding checks
checks-IsOnce cal [] today m w order once = once.at_most
checks-IsOnce cal (c ∷ cs) today m w order once = checks-IsOnce cal cs (cal.day c.now) _ _ order.2 (
    check_and_alert-IsOnce cal c.faults c.now c.provider c.limit_usd c.used_usd today m w order.0
      order.1 once)

abbrev pub quiet : World
quiet = record { db = empty_db; outbox = [] }

quiet-IsOnce : (cal : Calendar) → IsOnce cal 0 quiet
unfolding sent_on get
quiet-IsOnce cal = record {
  at_most = λ k d. omega arith;
  marked = λ k d. inl refl;
  past = λ k t row. cc;
}

-- From empty tables, over any calls one after the other, whose days do not go back and whose marks are all written, with
-- any reads failing, no provider and threshold is alerted twice on one day.
pub alerts_once_a_day :
    (cal : Calendar) (cs : List Check) (m : AlertManager)
    → InOrder cal 0 cs
    → (k : AlertKey) (d : ℕ) → sent_on cal k d (checks cal cs m quiet).outbox ≤ 1
alerts_once_a_day cal cs m order = checks-IsOnce cal cs 0 m quiet order (quiet-IsOnce cal)
