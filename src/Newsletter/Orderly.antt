-- ===== src/Newsletter/Orderly.antt =====
-- How the workers of core/newsletter.py share the issues.
use gestalt_workframe.Prelude.{
  ℕ, String, Bool, true, false, none, some, ◌≡◌, ◌≢◌, sym, ap, ◌∙◌, inl, inr, arith, Bool-cases,
  text_key, nat_eq, nat_eq_iff, IsIn, ◌⊎◌,
}
use mathlib.Core.Path.{subst}
use mathlib.Core.Option.{some_inj}
use gestalt_workframe.Newsletter.Rows.{Press}
use gestalt_workframe.Newsletter.Calls.{
  Task, claimed, copied, failing, numbered, Newsroom, set_task, issue_of, IsDistinct,
}
use gestalt_workframe.Newsletter.Keeps.{is_busy, is_closed, Keeps}
use gestalt_workframe.Newsletter.Spares.{Spares}

-- A worker that has an issue and has not yet sent emails.
unfoldable pub is_before : Task → Bool
is_before (claimed id) = true
is_before (copied id) = true
is_before (failing id) = true
is_before (numbered id) = true
is_before _ = false

-- Each issue has one worker at most and is then being sent or gone; an issue with emails is on its way
-- out or gone, and none that it has a worker for who is still to send them; no email was tried twice.
pub record IsOrderly (n : Newsroom) : Type 0 where
  pub busy : (w : ℕ) (id : String) → issue_of (n.tasks w) ≡ some id → is_busy id n.press ≡ true
  pub alone :
      (w v : ℕ) (id : String)
      → issue_of (n.tasks w) ≡ some id
      → issue_of (n.tasks v) ≡ some id
      → w ≡ v
  pub closed : (m : String × String) → IsIn m n.press.mails → is_closed m.0 n.press ≡ true
  pub unsent :
      (w : ℕ) (m : String × String)
      → is_before (n.tasks w) ≡ true
      → IsIn m n.press.mails
      → issue_of (n.tasks w) ≢ some m.0
  pub once : IsDistinct n.press.mails

-- another press with the same emails
pub press-IsOrderly :
    (q : Press) (n : Newsroom)
    → q.mails ≡ n.press.mails
    → ((w : ℕ) (id : String) → issue_of (n.tasks w) ≡ some id → is_busy id q ≡ true)
    → ((m : String × String) → IsIn m n.press.mails → is_closed m.0 q ≡ true)
    → IsOrderly n
    → IsOrderly (record n { press = q })
press-IsOrderly q n e b c o = record {
  busy = b;
  alone = o.alone;
  closed = λ m i. c m (subst (IsIn m) e i);
  unsent = λ w m h i. o.unsent w m h (subst (IsIn m) e i);
  once = subst IsDistinct (sym e) o.once;
}

pub Keeps-IsOrderly :
    (q : Press) (n : Newsroom) → Keeps n.press q → IsOrderly n → IsOrderly (record n { press = q })
Keeps-IsOrderly q n k o =
    press-IsOrderly q n k.mails (λ w id h. k.busy id (o.busy w id h))
      (λ m i. k.closed m.0 (o.closed m i)) o

-- what a worker was set to, and what the others are at
pub set_task-cases :
    (w v : ℕ) (t : Task) (ts : ℕ → Task)
    → ((w ≡ v) × (set_task w t ts v ≡ t)) ⊎ ((w ≢ v) × (set_task w t ts v ≡ ts v))
unfolding set_task
set_task-cases w v t ts = elim (Bool-cases (nat_eq w v)) [
  | inl e ↦ inl ((nat_eq_iff w v).0 e, ground (arith, e))
  | inr e ↦ inr (ground (arith, e, nat_eq_iff w v), ground (arith, e))
]

-- a worker that goes on with its issue, or does nothing any more
module _ (w : ℕ) (t : Task) (n : Newsroom)
    (same : (id : String) → issue_of t ≡ some id → issue_of (n.tasks w) ≡ some id) where
  issue_back :
      (v : ℕ) (id : String)
      → issue_of (set_task w t n.tasks v) ≡ some id
      → issue_of (n.tasks v) ≡ some id
  issue_back v id h = elim (set_task-cases w v t n.tasks) [
    | inl (e, k) ↦ subst (λ u. issue_of (n.tasks u) ≡ some id) e (same id (ap issue_of (sym k) ∙ h))
    | inr (e, k) ↦ ap issue_of (sym k) ∙ h
  ]

  before_back :
      (is_before t ≡ true → is_before (n.tasks w) ≡ true)
      → (v : ℕ) → is_before (set_task w t n.tasks v) ≡ true
      → is_before (n.tasks v) ≡ true
  before_back still v h = elim (set_task-cases w v t n.tasks) [
    | inl (e, k) ↦ subst (λ u. is_before (n.tasks u) ≡ true) e (still (ap is_before (sym k) ∙ h))
    | inr (e, k) ↦ ap is_before (sym k) ∙ h
  ]

  pub retask-IsOrderly :
      (is_before t ≡ true → is_before (n.tasks w) ≡ true)
      → IsOrderly n
      → IsOrderly (record n { tasks = set_task w t n.tasks })
  retask-IsOrderly still o = record {
    busy = λ v id h. o.busy v id (issue_back v id h);
    alone = λ v u id h k. o.alone v u id (issue_back v id h) (issue_back u id k);
    closed = o.closed;
    unsent = λ v m h i k. o.unsent v m (before_back still v h) i (issue_back v m.0 k);
    once = o.once;
  }

-- a worker that has no issue any more
module _ (w : ℕ) (t : Task) (n : Newsroom) (free : issue_of t ≡ none) (done : is_before t ≡ false)
    (o : IsOrderly n) where
  pub free-IsOrderly : IsOrderly (record n { tasks = set_task w t n.tasks })
  free-IsOrderly = retask-IsOrderly w t n (λ id h. cc) (λ h. cc) o

  -- no other worker has the issue that it had
  pub left_alone :
      (id : String)
      → issue_of (n.tasks w) ≡ some id
      → (v : ℕ) → issue_of (set_task w t n.tasks v) ≢ some id
  left_alone id h v k = elim (set_task-cases w v t n.tasks) [
    | inl (e, f) ↦ let never : none ≡ some id = sym free ∙ ap issue_of (sym f) ∙ k in cc
    | inr (e, f) ↦ e (o.alone w v id h (ap issue_of (sym f) ∙ k))
  ]

-- a change of an issue that nobody sends and of which nothing was sent
pub spared-IsOrderly :
    (id : String) (q : Press) (n : Newsroom)
    → Spares id n.press q
    → ((w : ℕ) → issue_of (n.tasks w) ≢ some id)
    → ((m : String × String) → IsIn m n.press.mails → id ≢ m.0)
    → IsOrderly n
    → IsOrderly (record n { press = q })
spared-IsOrderly id q n s unheld unmailed o =
    press-IsOrderly q n s.mails
      (λ w j h. s.busy j (λ e. unheld w (h ∙ ap some (sym e))) (o.busy w j h))
      (λ m i. s.closed m.0 (unmailed m i) (o.closed m i)) o

pub claimed-issue : (id j : String) → issue_of (claimed id) ≡ some j → id ≡ j
unfolding issue_of
claimed-issue id j h = some_inj.0 h

claimed-cases :
    (w v : ℕ) (id j : String) (ts : ℕ → Task)
    → issue_of (set_task w (claimed id) ts v) ≡ some j
    → ((w ≡ v) × (id ≡ j)) ⊎ (issue_of (ts v) ≡ some j)
claimed-cases w v id j ts h = elim (set_task-cases w v (claimed id) ts) [
  | inl (e, t) ↦ inl (e, claimed-issue id j (ap issue_of (sym t) ∙ h))
  | inr (e, t) ↦ inr (ap issue_of (sym t) ∙ h)
]

-- a worker that takes an issue nobody has, and of which nothing was sent
pub claim-IsOrderly :
    (w : ℕ) (id : String) (n : Newsroom)
    → is_busy id n.press ≡ true
    → ((v : ℕ) → issue_of (n.tasks v) ≢ some id)
    → ((m : String × String) → IsIn m n.press.mails → id ≢ m.0)
    → IsOrderly n
    → IsOrderly (record n { tasks = set_task w (claimed id) n.tasks })
claim-IsOrderly w id n b unheld unmailed o = record {
  busy = λ v j h. elim (claimed-cases w v id j n.tasks h) [
    | inl (e, t) ↦ subst (λ k. is_busy k n.press ≡ true) t b
    | inr k ↦ o.busy v j k
  ];
  alone = λ v u j h k. elim (claimed-cases w v id j n.tasks h) [
    | inl (e, t) ↦ elim (claimed-cases w u id j n.tasks k) [
      | inl (f, s) ↦ sym e ∙ f
      | inr f ↦ elim (unheld u (f ∙ ap some (sym t))) [ ]
    ]
    | inr e ↦ elim (claimed-cases w u id j n.tasks k) [
      | inl (f, s) ↦ elim (unheld v (e ∙ ap some (sym s))) [ ]
      | inr f ↦ o.alone v u j e f
    ]
  ];
  closed = o.closed;
  unsent = λ v m h i k. elim (set_task-cases w v (claimed id) n.tasks) [
    | inl (e, t) ↦ unmailed m i (claimed-issue id m.0 (ap issue_of (sym t) ∙ k))
    | inr (e, t) ↦ o.unsent v m (ap is_before (sym t) ∙ h) i (ap issue_of (sym t) ∙ k)
  ];
  once = o.once;
}
