-- ===== src/Scheduler/Due.antt =====
-- The sources that core/discovery_scheduler.py finds due.
use gestalt_workframe.Prelude.{
  ℕ, zero, suc, ◌+◌, ◌*◌, ◌≤◌, ◌≡◌, ◌↔◌, ◌⊎◌, refl, ap, ◌∙◌, String, Bool, true, Option, none, some,
  List, [], ◌∷◌, arith, select, take, length, IsIn, IsIn-select, inl, inr, Bool-cases,
}
use mathlib.Core.Option.{some_inj}
use gestalt_workframe.Scheduler.Poll.{
  PolledSource, PollResult, is_active, is_due, is_past, select_due_sources, record_successful_poll,
  record_failed_poll,
}

take_all : {A : Type 0} (n : ℕ) (xs : List A) → length xs ≤ n → take n xs ≡ xs
take_all zero [] h = refl
take_all zero (x ∷ xs) h = let never : ⊥ = omega (arith, h) in elim never [ ]
take_all (suc n) [] h = refl
take_all (suc n) (x ∷ xs) h = ap (λ ys. x ∷ ys) (take_all n xs (omega (arith, h)))

selected-IsIn :
    {A : Type 0} (p : A → Bool) (x : A) (xs : List A)
    → IsIn x (select p xs)
    → IsIn x xs × (p x ≡ true)
selected-IsIn p x [] i = elim i [ ]
selected-IsIn p x (y ∷ ys) i = elim (Bool-cases (p y)) [
  | inl e ↦ elim (rw e at i) [
    | inl same ↦ (inl same, ap p same ∙ e)
    | inr old ↦ let (j, h) = selected-IsIn p x ys old in (inr j, h)
  ]
  | inr e ↦ let (j, h) = selected-IsIn p x ys (rw e at i) in (inr j, h)
]

-- Never polled, or not within the source's interval.
abbrev pub IsStale : ℕ → PolledSource → Type 0
IsStale now p =
    (p.last_polled_at ≡ none)
    ⊎ ((at : ℕ) × (p.last_polled_at ≡ some at)
        × (at + p.row.refresh_interval_seconds * 1000000 ≤ now))

past_iff :
    (now long : ℕ) (o : Option ℕ)
    → (is_past now long o ≡ true) ↔ ((o ≡ none) ⊎ ((at : ℕ) × (o ≡ some at) × (at + long ≤ now)))
unfolding is_past
past_iff now long none = ((λ h. inl refl), λ h. refl)
past_iff now long (some at) = (
  λ h. inr (at, refl, ground (arith, h)),
  λ h. elim h [ inl e ↦ cc | inr (b, e, k) ↦ ground (arith, some_inj.0 e, k) ],
)

is_due-IsStale : (now : ℕ) (p : PolledSource) → (is_due now p ≡ true) ↔ IsStale now p
unfolding is_due
is_due-IsStale now p = past_iff now (p.row.refresh_interval_seconds * 1000000) p.last_polled_at

-- what a poll at an instant leaves of the time of the last poll
poll-IsStale : (now later long : ℕ) → (is_past later long (some now) ≡ true) ↔ (now + long ≤ later)
unfolding is_past
poll-IsStale now later long = ground arith

-- A source that was polled is due again exactly when its interval has passed, whether the poll succeeded or
-- failed, and however often it failed before.
pub due_again_iff :
    (now later : ℕ) (result : PollResult) (error : String) (p : PolledSource)
    → ((is_due later (record_successful_poll now result p) ≡ true)
        ↔ (now + p.row.refresh_interval_seconds * 1000000 ≤ later))
      × ((is_due later (record_failed_poll now error p) ≡ true)
          ↔ (now + p.row.refresh_interval_seconds * 1000000 ≤ later))
unfolding is_due record_successful_poll record_failed_poll
due_again_iff now later result error p =
    let e = poll-IsStale now later (p.row.refresh_interval_seconds * 1000000) in (e, e)

-- A selected source is due.
pub selected_due :
    (now limit : ℕ) (rows : List PolledSource) (p : PolledSource)
    → IsIn p (select_due_sources now limit rows)
    → is_due now p ≡ true
unfolding select_due_sources
selected_due now limit rows p i = (selected-IsIn (is_due now) p _ i).1

-- A row that was last polled at an instant is due again once its interval has passed.
pub polled_again :
    (now later : ℕ) (p : PolledSource)
    → p.last_polled_at ≡ some now
    → is_due later p ≡ true
    → now + p.row.refresh_interval_seconds * 1000000 ≤ later
unfolding is_due
polled_again now later p at due =
    (poll-IsStale now later (p.row.refresh_interval_seconds * 1000000)).0 (rw at at due)

-- As long as no more sources are active than the query's limit, a source of the table is selected exactly
-- when it is active and was never polled or last polled at least its interval ago.
pub due_iff :
    (now limit : ℕ) (rows : List PolledSource) (p : PolledSource)
    → length (select is_active rows) ≤ limit
    → IsIn p rows
    → IsIn p (select_due_sources now limit rows) ↔ ((is_active p ≡ true) × IsStale now p)
unfolding select_due_sources
due_iff now limit rows p h i =
    let all = take_all limit (select is_active rows) h in
    (
      λ k.
          let (j, due) = selected-IsIn (is_due now) p _ (rw all at k) in
          ((selected-IsIn is_active p rows j).1, (is_due-IsStale now p).0 due),
      λ (active, stale). rw all (
          IsIn-select (is_due now) p _ ((is_due-IsStale now p).1 stale)
            (IsIn-select is_active p rows active i)),
    )
