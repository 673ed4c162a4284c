-- ===== src/Budget/Database.antt =====
-- The SQLite tables of core/cloud_budget.py, core/budget_alerts.py and core/session_cost_tracker.py,
-- the webhook calls that they make, and the sums that they query.
-- Money is counted in 10^-12 USD and a price in 10^-6 USD per million tokens, so that a cost is
-- `tokens * price` with nothing lost.
use gestalt_workframe.Prelude.{
  ℕ, ◌+◌, ◌≡◌, ◌↔◌, String, Bool, true, false, ◌&&◌, not, Option, List, [], ◌∷◌, arith, nat_eq,
  nat_eq_iff, leb, Key, ◌==◌, text_key, any, if◌then◌else◌,
}
use gestalt_workframe.Prelude.Assoc.{Assoc}

-- The reasons of a `CloudBudgetDecision`; where the code has an empty text there is none.
pub data Reason : Type 0 where
  cloud_spillover_disabled call_cap_zero input_token_cap_exceeded output_token_cap_exceeded : Reason
  budget_store_unavailable budget_accounting_blocked session_call_cap_exhausted : Reason
  daily_call_cap_exhausted monthly_call_cap_exhausted daily_usd_cap_exhausted : Reason
  monthly_usd_cap_exhausted within_budget missing_usage_metadata invalid_usage_metadata : Reason
  usage_recorded usage_accounting_failed reservation_failed accounting_block_cleared : Reason
  clear_failed provider_budget_disabled provider_daily_usd_cap_exhausted : Reason
  provider_monthly_usd_cap_exhausted within_provider_budget provider_budget_check_failed : Reason
  no_global_gate : Reason

pub record CloudBudgetDecision : Type 0 where
  pub allowed : Bool
  pub reason : Reason

-- The keys of `cloud_budget_counter`: the texts `session:…`, `day:…` and `month:…`.
pub data CounterKey : Type 0 where
  session : String → CounterKey
  day month : ℕ → CounterKey

abbrev pub counter_key_beq : CounterKey → CounterKey → Bool
counter_key_beq (session s) (session t) = s == t
counter_key_beq (day a) (day b) = nat_eq a b
counter_key_beq (month a) (month b) = nat_eq a b
counter_key_beq _ _ = false

pub counter_key_beq_iff : (a b : CounterKey) → (counter_key_beq a b ≡ true) ↔ (a ≡ b)
counter_key_beq_iff (session s) (session t) = ground (arith, text_key.agree_iff s t)
counter_key_beq_iff (session s) (day b) = ground arith
counter_key_beq_iff (session s) (month b) = ground arith
counter_key_beq_iff (day a) (session t) = ground arith
counter_key_beq_iff (day a) (day b) = ground (arith, nat_eq_iff a b)
counter_key_beq_iff (day a) (month b) = ground arith
counter_key_beq_iff (month a) (session t) = ground arith
counter_key_beq_iff (month a) (day b) = ground arith
counter_key_beq_iff (month a) (month b) = ground (arith, nat_eq_iff a b)

instance abbrev pub counter_key_eq : Key CounterKey
counter_key_eq = record { agree = counter_key_beq; agree_iff = counter_key_beq_iff }

-- The unique key of `budget_alert_fired`.
pub record AlertKey : Type 0 where
  pub provider_id : String
  pub threshold_pct : ℕ

abbrev pub alert_key_beq : AlertKey → AlertKey → Bool
alert_key_beq a b = a.provider_id == b.provider_id && nat_eq a.threshold_pct b.threshold_pct

pub alert_key_beq_iff : (a b : AlertKey) → (alert_key_beq a b ≡ true) ↔ (a ≡ b)
alert_key_beq_iff a b = ground (arith, text_key.agree_iff a.provider_id b.provider_id)

instance abbrev pub alert_key_eq : Key AlertKey
alert_key_eq = record { agree = alert_key_beq; agree_iff = alert_key_beq_iff }

-- A row of `cloud_budget_usage_event`, without its random id.
pub record UsageEvent : Type 0 where
  pub created_at : ℕ
  pub session_id : String
  pub provider : String
  pub model : String
  pub input_tokens : ℕ
  pub output_tokens : ℕ
  pub input_cost_usd : ℕ
  pub output_cost_usd : ℕ
  pub total_cost_usd : ℕ

-- A row of `session_cost_event`.
pub record SessionCostEvent : Type 0 where
  pub session_id : String
  pub provider_id : String
  pub model : String
  pub input_tokens : ℕ
  pub output_tokens : ℕ
  pub input_cost_usd : ℕ
  pub output_cost_usd : ℕ
  pub total_cost_usd : ℕ
  pub created_at : ℕ

-- `cloud_budget_state` holds a reason under each key, none for the empty text.
pub record Database : Type 0 where
  pub counters : Assoc CounterKey ℕ
  pub events : List UsageEvent
  pub state : Assoc String (Option Reason)
  pub alert_fired : Assoc AlertKey ℕ
  pub session_costs : List SessionCostEvent
  pub session_alert_sent : Assoc String ℕ

pub record BudgetAlert : Type 0 where
  pub provider_id : String
  pub threshold_pct : ℕ
  pub limit_usd : ℕ
  pub used_usd : ℕ
  pub remaining_usd : ℕ
  pub fired_at : ℕ

pub data Notice : Type 0 where
  budget_threshold_crossed : BudgetAlert → Notice
  high_session_cost : String → ℕ → ℕ → Notice

-- The file and the webhook calls made, oldest first.
pub record World : Type 0 where
  pub db : Database
  pub outbox : List Notice

abbrev pub empty_db : Database
empty_db = record {
  counters = [];
  events = [];
  state = [];
  alert_fired = [];
  session_costs = [];
  session_alert_sent = [];
}

-- `SELECT COALESCE(SUM(total_cost_usd), 0) … WHERE created_at >= ?`
unfoldable pub usd_since : ℕ → List UsageEvent → ℕ
usd_since since [] = 0
usd_since since (e ∷ es) =
    (if leb since e.created_at then e.total_cost_usd else 0) + usd_since since es

-- the same query with `provider = ? AND`
unfoldable pub provider_usd_since : String → ℕ → List UsageEvent → ℕ
provider_usd_since p since [] = 0
provider_usd_since p since (e ∷ es) =
    (if e.provider == p && leb since e.created_at then e.total_cost_usd else 0)
    + provider_usd_since p since es

-- `SELECT COUNT(DISTINCT session_id) … WHERE created_at >= ?`
unfoldable pub sessions_since : ℕ → List UsageEvent → ℕ
sessions_since since [] = 0
sessions_since since (e ∷ es) =
    let again = any (λ d. leb since d.created_at && d.session_id == e.session_id) es in
    (if leb since e.created_at && not again then 1 else 0) + sessions_since since es

-- `SELECT COALESCE(SUM(total_cost_usd), 0) FROM session_cost_event WHERE session_id = ?`
unfoldable pub session_usd : String → List SessionCostEvent → ℕ
session_usd s [] = 0
session_usd s (e ∷ es) = (if e.session_id == s then e.total_cost_usd else 0) + session_usd s es
