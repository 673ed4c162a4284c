-- ===== src/Budget/SessionCost/Alert.antt =====
-- How often a session's cost is alerted by calls of `record_cost` of core/session_cost_tracker.py that do not
-- overlap.
use gestalt_workframe.Prelude.{
  ℕ, ◌+◌, ◌≤◌, ◌≡◌, refl, inl, inr, String, Bool, false, ◌&&◌, ◌||◌, not, none, List, [], ◌∷◌, ◌++◌,
  arith, leb, text_key, ◌==◌, Bool-cases, if◌then◌else◌, All,
}
use gestalt_workframe.Prelude.Assoc.{get, get-put}
use gestalt_workframe.Budget.Database.{
  SessionCostEvent, Notice, budget_threshold_crossed, high_session_cost, World, session_usd,
  empty_db,
}
use gestalt_workframe.Budget.SessionCost.{
  SessionCostTracker, TrackerFaults, tracker_init, check_session, record_cost, log_cost,
}

-- A call of `record_cost`: when, which accesses fail, and the event.
pub record Spend : Type 0 where
  pub now : ℕ
  pub faults : TrackerFaults
  pub event : SessionCostEvent

-- The calls of one tracker, in order.
pub spends : List Spend → SessionCostTracker → World → World
spends [] t w = w
spends (s ∷ ss) t w = let (t', v) = record_cost s.faults s.now s.event t w in spends ss t' v

abbrev pub is_session_alert : String → Notice → Bool
is_session_alert s (high_session_cost r total call) = r == s
is_session_alert s (budget_threshold_crossed a) = false

-- How many alerts of the session went out.
pub session_alerts : String → List Notice → ℕ
session_alerts s [] = 0
session_alerts s (n ∷ ns) = (if is_session_alert s n then 1 else 0) + session_alerts s ns

pub session_alerts-append :
    (s : String) (ns : List Notice) (n : Notice)
    → session_alerts s (ns ++ n ∷ [])
      ≡ session_alerts s ns + (if is_session_alert s n then 1 else 0)
unfolding session_alerts
session_alerts-append s [] n = omega arith
session_alerts-append s (m ∷ ns) n = omega (arith, session_alerts-append s ns n)

-- Each session was alerted at most once, and an alerted one is marked.
pub record IsOnce (w : World) : Type 0 where
  pub at_most : (s : String) → session_alerts s w.outbox ≤ 1
  pub marked : (s : String) → get s w.db.session_alert_sent ≡ none → session_alerts s w.outbox ≡ 0

module _ (f : TrackerFaults) (now : ℕ) (t : SessionCostTracker) (written : f.mark ≡ false) where
  check_session-at_most :
      (r : String) (cost : ℕ) (w : World)
      → IsOnce w
      → (s : String) → session_alerts s (check_session f now r cost t w).outbox ≤ 1
  unfolding check_session
  check_session-at_most r cost w once s = ground (
    arith,
    once.at_most s,
    once.marked r,
    text_key.agree_iff r s,
    session_alerts-append s w.outbox (high_session_cost r (session_usd r w.db.session_costs) cost),
  )

  check_session-marked :
      (r : String) (cost : ℕ) (w : World)
      → IsOnce w
      → (s : String) → get s (check_session f now r cost t w).db.session_alert_sent ≡ none
      → session_alerts s (check_session f now r cost t w).outbox ≡ 0
  unfolding check_session
  check_session-marked r cost w once s = ground (
    arith,
    once.marked s,
    text_key.agree_iff r s,
    get-put r s now w.db.session_alert_sent,
    session_alerts-append s w.outbox (high_session_cost r (session_usd r w.db.session_costs) cost),
  )

abbrev alarming : SessionCostTracker → SessionCostEvent → Bool
alarming t e = t.webhook_configured && leb t.alert_threshold_usd e.total_cost_usd

record_cost-IsOnce :
    (f : TrackerFaults) (now : ℕ) (e : SessionCostEvent) (t : SessionCostTracker) (w : World)
    → f.mark ≡ false
    → IsOnce w
    → IsOnce (record_cost f now e t w).1
unfolding record_cost
record_cost-IsOnce f now e t w written once =
    elim (Bool-cases (not (tracker_init f t).ready || f.insert)) [
      | inl lost ↦ rw lost once
      | inr kept ↦ rw kept (elim (Bool-cases (alarming (tracker_init f t) e)) [
        | inl costly ↦ rw costly (record {
          at_most =
              check_session-at_most f now t' written e.session_id e.total_cost_usd (log_cost e w)
                logged;
          marked =
              check_session-marked f now t' written e.session_id e.total_cost_usd (log_cost e w)
                logged;
        })
        | inr cheap ↦ rw cheap logged
      ])
    ]
  where
    t' : SessionCostTracker
    t' = tracker_init f t

    logged : IsOnce (log_cost e w)
    logged = record { at_most = once.at_most; marked = once.marked }

spends-IsOnce :
    (ss : List Spend) (t : SessionCostTracker) (w : World)
    → All (λ (s : Spend). s.faults.mark ≡ false) ss
    → IsOnce w
    → IsOnce (spends ss t w)
unfolding spends
spends-IsOnce [] t w written once = once
spends-IsOnce (s ∷ ss) t w written once =
    spends-IsOnce ss _ _ written.1 (record_cost-IsOnce s.faults s.now s.event t w written.0 once)

abbrev pub quiet : World
quiet = record { db = empty_db; outbox = [] }

quiet-IsOnce : IsOnce quiet
unfolding session_alerts
quiet-IsOnce = record { at_most = λ s. omega arith; marked = λ s h. refl }

-- From empty tables, over any calls one after the other, none of which fails to write the mark of an alert, each session
-- is alerted at most once.
pub session_alerted_once :
    (ss : List Spend) (t : SessionCostTracker)
    → All (λ (s : Spend). s.faults.mark ≡ false) ss
    → (r : String) → session_alerts r (spends ss t quiet).outbox ≤ 1
session_alerted_once ss t written = (spends-IsOnce ss t quiet written quiet-IsOnce).at_most
