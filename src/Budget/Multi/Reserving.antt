-- ===== src/Budget/Multi/Reserving.antt =====
-- The reservations of `MultiProviderBudgetGate` of core/cloud_budget.py.
use gestalt_workframe.Prelude.{
  ℕ, ◌+◌, ◌≡◌, inl, inr, refl, String, Bool, true, false, Option, none, some, arith, ◌&&◌, ap, ◌∙◌,
  Bool-cases,
}
use gestalt_workframe.Budget.Clock.{Calendar}
use gestalt_workframe.Budget.Database.{counter_key_eq, World}
use gestalt_workframe.Budget.Gate.{CloudBudgetGate, gate_init, session_key, reserve, count_of}
use gestalt_workframe.Budget.Gate.Admission.{reserve_passed}
use gestalt_workframe.Budget.Gate.Caps.{count_of-count_call}
use gestalt_workframe.Budget.Provider.{ProviderBudgetGate, check_and_record}
use gestalt_workframe.Budget.Provider.Ledger.{refused_changes_nothing}
use gestalt_workframe.Budget.Multi.Defs.{
  MultiProviderBudgetGate, MultiRequest, MultiFaults, gate_of,
}
use gestalt_workframe.Budget.Multi.Methods.{
  multi_reserve, reserve_global, reserve_provider, provider_check, global_request,
}

-- Does the provider's gate, if there is one, let the request pass?
unfoldable pub provider_passes :
    Calendar → MultiFaults → ℕ → MultiRequest → World → Option ProviderBudgetGate → Bool
provider_passes cal f now r w none = true
provider_passes cal f now r w (some g) =
    (check_and_record cal f.provider now (provider_check r) g w).2.allowed

gate_of-global :
    (m : MultiProviderBudgetGate) (o : Option CloudBudgetGate) (p : Option String)
    → gate_of (record m { global_gate = o }) p ≡ gate_of m p
unfolding gate_of
gate_of-global m o none = refl
gate_of-global m o (some p) = refl

reserve_provider_iff :
    (cal : Calendar) (f : MultiFaults) (now : ℕ) (r : MultiRequest) (m : MultiProviderBudgetGate)
    (w : World) (o : Option ProviderBudgetGate)
    → (reserve_provider cal f now r m w o).2.allowed ≡ provider_passes cal f now r w o
unfolding reserve_provider provider_passes
reserve_provider_iff cal f now r m w none = refl
reserve_provider_iff cal f now r m w (some g) = ground arith

world-reserve_provider :
    (cal : Calendar) (f : MultiFaults) (now : ℕ) (r : MultiRequest) (m : MultiProviderBudgetGate)
    (w : World) (o : Option ProviderBudgetGate)
    → (reserve_provider cal f now r m w o).1 ≡ w
unfolding reserve_provider provider_check
world-reserve_provider cal f now r m w none = refl
world-reserve_provider cal f now r m w (some g) =
    ground (arith, refused_changes_nothing cal f.provider now (provider_check r) g w (inr refl))

reserve_global-some :
    (cal : Calendar) (f : MultiFaults) (now : ℕ) (r : MultiRequest) (p : Option String)
    (m : MultiProviderBudgetGate) (w : World) (g : CloudBudgetGate)
    → (reserve cal f.global now (global_request r) (gate_init f.global g) w).2.allowed ≡ true
    → ((reserve_global cal f now r p m w (some g)).2.allowed
        ≡ provider_passes cal f now r
            (reserve cal f.global now (global_request r) (gate_init f.global g) w).1
            (gate_of m p))
      × ((reserve_global cal f now r p m w (some g)).1
          ≡ (reserve cal f.global now (global_request r) (gate_init f.global g) w).1)
unfolding reserve_global
reserve_global-some cal f now r p m w g admitted =
    let (g', v, d) = reserve cal f.global now (global_request r) (gate_init f.global g) w in
    let m' = record m { global_gate = some g' } in
    rw (admitted, gate_of-global)
      (
        reserve_provider_iff cal f now r m' v (gate_of m p),
        world-reserve_provider cal f now r m' v (gate_of m p),
      )

reserve_global-refused :
    (cal : Calendar) (f : MultiFaults) (now : ℕ) (r : MultiRequest) (p : Option String)
    (m : MultiProviderBudgetGate) (w : World) (g : CloudBudgetGate)
    → (reserve cal f.global now (global_request r) (gate_init f.global g) w).2.allowed ≡ false
    → (reserve_global cal f now r p m w (some g)).2.allowed ≡ false
unfolding reserve_global
reserve_global-refused cal f now r p m w g refused = rw refused refused

multi_reserve_global :
    (cal : Calendar) (f : MultiFaults) (now : ℕ) (r : MultiRequest) (p : Option String)
    (m : MultiProviderBudgetGate) (w : World) (g : CloudBudgetGate)
    → m.global_gate ≡ some g
    → multi_reserve cal f now r p m w ≡ reserve_global cal f now r p m w (some g)
unfolding multi_reserve
multi_reserve_global cal f now r p m w g has_global =
    ap (reserve_global cal f now r p m w) has_global

-- With a global gate, `reserve` admits a call exactly when the global gate, made ready, reserves it and
-- the gate of the provider, where there is one, lets it pass.
pub multi_reserve_allowed :
    (cal : Calendar) (f : MultiFaults) (now : ℕ) (r : MultiRequest) (p : Option String)
    (m : MultiProviderBudgetGate) (w : World) (g : CloudBudgetGate)
    → m.global_gate ≡ some g
    → (multi_reserve cal f now r p m w).2.allowed ≡ (
        (reserve cal f.global now (global_request r) (gate_init f.global g) w).2.allowed
        && provider_passes cal f now r
            (reserve cal f.global now (global_request r) (gate_init f.global g) w).1
            (gate_of m p))
multi_reserve_allowed cal f now r p m w g has_global =
    rw (multi_reserve_global cal f now r p m w g has_global)
      (elim (Bool-cases
        (reserve cal f.global now (global_request r) (gate_init f.global g) w).2.allowed) [
          | inl admitted ↦ rw admitted ((reserve_global-some cal f now r p m w g admitted).0)
          | inr refused ↦ rw refused (reserve_global-refused cal f now r p m w g refused)
        ])

-- A reservation that the global gate admits and the provider's gate refuses is refused, and yet counts
-- as a call of its session.
pub provider_refusal_counts :
    (cal : Calendar) (f : MultiFaults) (now : ℕ) (r : MultiRequest) (p : Option String)
    (m : MultiProviderBudgetGate) (w : World) (g : CloudBudgetGate)
    → m.global_gate ≡ some g
    → (reserve cal f.global now (global_request r) (gate_init f.global g) w).2.allowed ≡ true
    → provider_passes cal f now r
        (reserve cal f.global now (global_request r) (gate_init f.global g) w).1
        (gate_of m p)
      ≡ false
    → ((multi_reserve cal f now r p m w).2.allowed ≡ false)
      × (count_of (session_key r.session_id) (multi_reserve cal f now r p m w).1.db.counters
          ≡ count_of (session_key r.session_id) w.db.counters + 1)
unfolding session_key
provider_refusal_counts cal f now r p m w g has_global admitted refused =
    let (decided, world) = reserve_global-some cal f now r p m w g admitted in
    let left =
      reserve_passed cal f.global now (global_request r) (gate_init f.global g) w admitted in
    rw (multi_reserve_global cal f now r p m w g has_global) (
      decided ∙ refused,
      rw world (
          rw left.7 (
            ground (
              arith,
              count_of-count_call cal now r.session_id (session_key r.session_id) w,
              counter_key_eq.agree_iff (session_key r.session_id) (session_key r.session_id),
            ))),
    )
