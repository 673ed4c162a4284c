-- ===== src/Budget/SessionCost.antt =====
-- core/session_cost_tracker.py: `SessionCostTracker`, what a call costs its session and the alert of
-- a costly session. The summaries that it also serves are reads and are not modelled.
pub mod Alert
pub mod Overlap
use gestalt_workframe.Prelude.{
  ℕ, ◌+◌, String, Bool, true, false, not, ◌&&◌, ◌||◌, Option, none, some, List, [], ◌∷◌, ◌++◌, leb,
  ltb, length, select, ◌-◌, text_key, if◌then◌else◌,
}
use gestalt_workframe.Prelude.Assoc.{Assoc, get, put}
use gestalt_workframe.Budget.Database.{
  SessionCostEvent, World, Notice, high_session_cost, session_usd,
}

pub record SessionCostTracker : Type 0 where
  pub ready : Bool
  pub webhook_configured : Bool
  pub alert_threshold_usd : ℕ

-- Which accesses fail: the creation of the tables, the insertion, and the alert's transaction before
-- and after the webhook is called.
pub record TrackerFaults : Type 0 where
  pub create : Bool
  pub insert : Bool
  pub query : Bool
  pub mark : Bool

unfoldable pub tracker_init : TrackerFaults → SessionCostTracker → SessionCostTracker
tracker_init f t = if t.ready then t else record t { ready = not f.create }

-- `_check_and_alert` with no other call in between
unfoldable pub check_session : TrackerFaults → ℕ → String → ℕ → SessionCostTracker → World → World
check_session f now session this_call_cost t w =
    let total = session_usd session w.db.session_costs in
    let sent = record w {
      outbox = w.outbox ++ high_session_cost session total this_call_cost ∷ [];
    } in
    if f.query || ltb total t.alert_threshold_usd
    then w
    else elim (get session w.db.session_alert_sent) [
      | some _ ↦ w
      | none ↦ if f.mark then sent else record sent {
        db = record w.db { session_alert_sent = put session now w.db.session_alert_sent };
      }
    ]

-- the part of `_check_and_alert` before the webhook: whether it goes on to send
unfoldable pub alert_is_due : Bool → String → SessionCostTracker → World → Bool
alert_is_due query_fails session t w =
    if query_fails || ltb (session_usd session w.db.session_costs) t.alert_threshold_usd
    then false
    else elim (get session w.db.session_alert_sent) [ some _ ↦ false | none ↦ true ]

-- the call of the webhook
unfoldable pub send_session_alert : String → ℕ → World → World
send_session_alert session this_call_cost w = record w {
  outbox =
      w.outbox
      ++ high_session_cost session (session_usd session w.db.session_costs) this_call_cost ∷ [];
}

-- the part after the webhook
unfoldable pub mark_session : Bool → ℕ → String → World → World
mark_session fails now session w = if fails then w else record w {
  db = record w.db { session_alert_sent = put session now w.db.session_alert_sent };
}

abbrev pub event_of : ℕ → String → String → String → ℕ → ℕ → ℕ → ℕ → SessionCostEvent
event_of now session provider model input output input_cost output_cost = record {
  session_id = session;
  provider_id = provider;
  model = model;
  input_tokens = input;
  output_tokens = output;
  input_cost_usd = input_cost;
  output_cost_usd = output_cost;
  total_cost_usd = input_cost + output_cost;
  created_at = now;
}

abbrev pub log_cost : SessionCostEvent → World → World
log_cost e w = record w { db = record w.db { session_costs = e ∷ w.db.session_costs } }

-- `record_cost` of an event
unfoldable pub record_cost :
    TrackerFaults → ℕ → SessionCostEvent → SessionCostTracker → World → SessionCostTracker × World
unfolding tracker_init check_session
record_cost f now e t w =
    let t' = tracker_init f t in
    let w' = log_cost e w in
    if not t'.ready || f.insert
    then (t', w)
    else if t'.webhook_configured && leb t'.alert_threshold_usd e.total_cost_usd
    then (t', check_session f now e.session_id e.total_cost_usd t' w')
    else (t', w')

abbrev kept_costs : ℕ → World → List SessionCostEvent
kept_costs cutoff w = select (λ (e : SessionCostEvent). leb cutoff e.created_at) w.db.session_costs

-- `cleanup_old_records`, with the cutoff that it computes; the count is that of the cost events
unfoldable pub cleanup_old_records :
    TrackerFaults → Bool → ℕ → SessionCostTracker → World → SessionCostTracker × World × ℕ
unfolding tracker_init
cleanup_old_records f fails cutoff t w =
    let t' = tracker_init f t in
    let marks = select (λ (r : String × ℕ). leb cutoff r.1) w.db.session_alert_sent in
    if not t'.ready || fails then (t', w, 0) else (
      t',
      record w {
        db = record w.db { session_costs = kept_costs cutoff w; session_alert_sent = marks };
      },
      length w.db.session_costs - length (kept_costs cutoff w),
    )
