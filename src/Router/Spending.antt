-- ===== src/Router/Spending.antt =====
-- What turns of core/router.py spend, with the budgets of core/cloud_budget.py.
use gestalt_workframe.Prelude.{
  ℕ, ◌≡◌, refl, sym, ap, ◌∙◌, String, Bool, true, false, Option, none, some, List, [], ◌∷◌, ◌==◌,
  text_key, inl, inr, Bool-cases,
}
use gestalt_workframe.Prelude.Int.{ℤ}
use gestalt_workframe.Prelude.Assoc.{get, put, get-put}
use gestalt_workframe.Budget.Clock.{Calendar}
use gestalt_workframe.Budget.Config.{CloudBudgetConfig}
use gestalt_workframe.Budget.Database.{World}
use gestalt_workframe.Budget.Gate.{CloudBudgetGate, Faults, Request, Usage}
use gestalt_workframe.Budget.Gate.Calls.{
  reserves, records, run_call, run_calls, config-reserve, config-record_usage,
}
use gestalt_workframe.Budget.Gate.Caps.{IsWithinCaps, run_calls-IsWithinCaps}
use gestalt_workframe.Budget.Provider.{ProviderBudgetGate, ProviderFaults, Charge}
use gestalt_workframe.Budget.Multi.{
  MultiProviderBudgetGate, MultiFaults, SomeGate, gate_for, gate_of, charge_gate, gate_key,
  multi_record_usage, refresh_headroom_cache,
}
use gestalt_workframe.Router.Routes.{Words}
use gestalt_workframe.Router.State.{LlmRouter}
use gestalt_workframe.Router.Gate.{Turn}
use gestalt_workframe.Router.Synthesis.{Deployment}
use gestalt_workframe.Router.Passed.{Passed}
use gestalt_workframe.Router.Chat.{Surroundings, chat}
use gestalt_workframe.Router.Budgets.{
  single_gate, single_reserve, single_record, multi_gate, multi_gate_reserve, multi_gate_record,
  multi_gate_refresh, reserve_at, booked, needs_counts,
}
use gestalt_workframe.Router.Orderly.{Upkeep, IsPaid}
use gestalt_workframe.Router.Turns.{Round, run_chats, run_chats-Upkeep, chat-IsPaid}

-- The gate has a configuration, and the counters are within its caps.
abbrev IsCapped : CloudBudgetConfig → CloudBudgetGate × World → Type 0
IsCapped c (g, w) = (g.config ≡ c) × IsWithinCaps c w.db.counters

single_gate-Upkeep :
    (cal : Calendar) (f : ℕ → Faults) (c : CloudBudgetConfig)
    → Upkeep (single_gate cal f) (IsCapped c) (λ x. Unit)
unfolding single_reserve single_record run_calls run_call
single_gate-Upkeep cal f c = record {
  refresh = λ now s h. h;
  reserve = λ now p q (g, w) h. (
    config-reserve cal (f now) now g w q ∙ h.0,
    rw (sym h.0) (run_calls-IsWithinCaps cal (reserves (f now) now q ∷ []) g w (rw h.0 h.1)),
  );
  record_usage = λ now p u (g, w) h. (
    config-record_usage cal (f now) now g w u ∙ h.0,
    rw (sym h.0) (run_calls-IsWithinCaps cal (records (f now) now u ∷ []) g w (rw h.0 h.1)),
  );
  admits = λ now x q s h e. tt;
}

-- With a `CloudBudgetGate`, no turns of `chat` bring the counted calls of a session, a day or a month above
-- the gate's cap, where it has one and they were within it before.
pub chats-IsWithinCaps :
    (cal : Calendar) (f : ℕ → Faults) (w : Words) (cs : List Round) (r : LlmRouter)
    (g : CloudBudgetGate) (v : World)
    → IsWithinCaps g.config v.db.counters
    → IsWithinCaps g.config (run_chats (single_gate cal f) w cs r (g, v)).1.1.db.counters
chats-IsWithinCaps cal f w cs r g v h =
    (run_chats-Upkeep (single_gate cal f) w (IsCapped g.config) (λ x. Unit)
      (single_gate-Upkeep cal f g.config) cs r (g, v) (refl, h)).1

-- The provider has a gate of its own.
abbrev pub HasGate : String → MultiProviderBudgetGate → Type 0
HasGate p m = (g : ProviderBudgetGate) × (get p m.gates ≡ some g)

put-HasGate :
    (p q : String) (m : MultiProviderBudgetGate) (x : ProviderBudgetGate)
    → HasGate p m
    → HasGate p (record m { gates = put q x m.gates })
put-HasGate p q m x (g, h) = elim (Bool-cases (q == p)) [
  | inl e ↦ (x, rw (get-put, e) refl)
  | inr e ↦ (g, rw (get-put, e) h)
]

reserve_at-HasGate :
    (cal : Calendar) (f : Faults) (now : ℕ) (q : Request) (p : String) (m : MultiProviderBudgetGate)
    (w : World) (x : SomeGate)
    → HasGate p m
    → HasGate p (reserve_at cal f now q m w x).0.0
unfolding reserve_at
reserve_at-HasGate cal f now q p m w (SomeGate.provider_gate g) h = h
reserve_at-HasGate cal f now q p m w (SomeGate.global_gate g) h = h
reserve_at-HasGate cal f now q p m w SomeGate.default_gate h = h

charge_gate-HasGate :
    (cal : Calendar) (f : ProviderFaults) (now : ℕ) (c : Charge) (p q : String)
    (m : MultiProviderBudgetGate) (w : World) (x : Option ProviderBudgetGate)
    → HasGate p m
    → HasGate p (charge_gate cal f now c q m w x).0
unfolding charge_gate
charge_gate-HasGate cal f now c p q m w none h = h
charge_gate-HasGate cal f now c p q m w (some x) h = put-HasGate p q m _ h

booked-HasGate :
    (cal : Calendar) (f : ProviderFaults) (now : ℕ) (p q : String) (u : Usage)
    (m : MultiProviderBudgetGate) (w : World) (i o : Option ℤ)
    → HasGate p m
    → HasGate p (booked cal f now q u m w i o).0.0
unfolding booked multi_record_usage
booked-HasGate cal f now p q u m w (some i) (some o) h =
    charge_gate-HasGate cal f now _ p _ m w (get (gate_key (some q) u.provider) m.gates) h
booked-HasGate cal f now p q u m w (some i) none h = h
booked-HasGate cal f now p q u m w none o h = h

record-HasGate :
    (cal : Calendar) (f : ℕ → MultiFaults) (now : ℕ) (p q : String) (u : Usage)
    (m : MultiProviderBudgetGate) (w : World)
    → HasGate p m
    → HasGate p (multi_gate_record cal f now q u (m, w)).0.0
unfolding multi_gate_record
record-HasGate cal f now p q u m w h =
    elim (Bool-cases (needs_counts (get (gate_key (some q) u.provider) m.gates))) [
      | inl e ↦
          rw e (booked-HasGate cal (f now).provider now p q u m w u.input_tokens u.output_tokens h)
      | inr e ↦ rw e h
    ]

-- a gate of the provider's own cannot be asked to reserve
gated_refuses :
    (cal : Calendar) (f : ℕ → MultiFaults) (now : ℕ) (p : String) (q : Request)
    (m : MultiProviderBudgetGate) (w : World)
    → (p == "") ≡ false
    → HasGate p m
    → (multi_gate_reserve cal f now p q (m, w)).1 ≡ none
unfolding multi_gate_reserve gate_for gate_of reserve_at
gated_refuses cal f now p q m w named (g, h) = rw (named, h) refl

multi_gate-Upkeep :
    (cal : Calendar) (f : ℕ → MultiFaults) (fails : ℕ → String → Bool) (p : String)
    → (p == "") ≡ false
    → Upkeep
        (multi_gate cal f fails)
        (λ s. HasGate p s.0)
        (λ x. (x.provider_budget_id == p) ≡ false)
unfolding multi_gate_refresh refresh_headroom_cache multi_gate_reserve
multi_gate-Upkeep cal f fails p named = record {
  refresh = λ now (m, w) h. h;
  reserve =
      λ now q r (m, w) h. reserve_at-HasGate cal (f now).global now r p m w (gate_for m (some q)) h;
  record_usage = λ now q u (m, w) h. record-HasGate cal f now p q u m w h;
  admits = λ now x q (m, w) h e. elim (Bool-cases (x.provider_budget_id == p)) [
    | inl same ↦
        let same_id = (text_key.agree_iff x.provider_budget_id p).0 same in
        let refused : some true ≡ none =
          sym e
          ∙ ap (λ y. (multi_gate_reserve cal f now y q (m, w)).1) same_id
          ∙ gated_refuses cal f now p q m w named h in
        cc
    | inr other ↦ other
  ];
}

-- With a `MultiProviderBudgetGate`, a cloud route whose provider has a gate of its own is never called: the
-- router asks that gate to reserve, which it cannot do. So every cloud call of any turn goes to a route of
-- another provider.
pub gated_provider_never_called :
    (cal : Calendar) (f : ℕ → MultiFaults) (fails : ℕ → String → Bool) (d : Deployment)
    (o : Surroundings) (t : Turn) (r : LlmRouter) (m : MultiProviderBudgetGate) (w : World)
    (p : String)
    → (p == "") ≡ false
    → HasGate p m
    → IsPaid
        (Passed d.words t r.routing_strategy)
        (λ x. (x.provider_budget_id == p) ≡ false)
        (chat (multi_gate cal f fails) d o t (r, (m, w), [])).0.2
gated_provider_never_called cal f fails d o t r m w p named h =
    (chat-IsPaid (multi_gate cal f fails) d o t (λ s. HasGate p s.0)
      (λ x. (x.provider_budget_id == p) ≡ false) (multi_gate-Upkeep cal f fails p named) r (m, w)
      h).1
