-- ===== src/Newsletter/Window.antt =====
-- The time between the approval of an issue of core/newsletter.py and its dispatch.
use gestalt_workframe.Prelude.{
  ℕ, ◌≤◌, ◌<◌, String, true, false, Option, none, some, List, [], ◌∷◌, ◌≡◌, ◌⊎◌, refl, ap, ◌∙◌, inl,
  inr, arith, Bool-cases, text_key, ◌==◌, leb, map, IsIn, IsIn-select,
}
use gestalt_workframe.Prelude.Assoc.{Assoc, get, get-put_self}
use gestalt_workframe.Discovery.Rows.{value_error}
use gestalt_workframe.Newsletter.Rows.{
  Issue, Press, PressResult, save_issue, is_editable, is_approved,
}
use gestalt_workframe.Newsletter.Schedule.{
  approved_row, send_time, approve_and_schedule, is_ahead, withdrawn_issue, cancel_scheduled_send,
}
use gestalt_workframe.Newsletter.Dispatch.{is_due, due_ids}
use gestalt_workframe.Newsletter.Found.{with_issue_there}

IsIn-get : (id : String) (i : Issue) (m : Assoc String Issue) → get id m ≡ some i → IsIn (id, i) m
unfolding get
IsIn-get id i [] h = ground (arith, h)
IsIn-get id i ((j, w) ∷ m) h = elim (Bool-cases (j == id)) [
  | inl e ↦ inl (ground (arith, e, h, text_key.agree_iff j id))
  | inr e ↦ inr (IsIn-get id i m (rw e at h))
]

IsIn-map : {A B : Type 0} (f : A → B) (x : A) (xs : List A) → IsIn x xs → IsIn (f x) (map f xs)
IsIn-map f x [] i = i
IsIn-map f x (y ∷ ys) (inl e) = inl (ap f e)
IsIn-map f x (y ∷ ys) (inr i) = inr (IsIn-map f x ys i)

IsIn-due_ids :
    (now : ℕ) (id : String) (i : Issue) (m : Assoc String Issue)
    → get id m ≡ some i
    → is_due now i ≡ true
    → IsIn id (due_ids now m)
unfolding due_ids
IsIn-due_ids now id i m h d =
    IsIn-map (λ (r : String × Issue). r.0) (id, i) _
      (IsIn-select (λ (r : String × Issue). is_due now r.1) (id, i) m d (IsIn-get id i m h))

pub approve-there :
    (now : ℕ) (id by : String) (at : Option ℕ) (p : Press) (i : Issue)
    → get id p.issues ≡ some i
    → is_editable i.status ≡ true
    → approve_and_schedule now id by at p
      ≡ (save_issue id (approved_row now by (send_time now at) i) p, none)
unfolding approve_and_schedule
approve-there now id by at p i h e = with_issue_there id p _ i h ∙ rw e refl

-- cancelling, before the sending time and from it on
module _ (now : ℕ) (id : String) (p : Press) (i : Issue) (at : ℕ) (h : get id p.issues ≡ some i)
    (a : is_approved i.status ≡ true) (s : i.scheduled_send_at ≡ some at) where
  cancel-early :
      leb at now ≡ false
      → cancel_scheduled_send now id p ≡ (save_issue id (withdrawn_issue now i) p, none)
  unfolding cancel_scheduled_send is_ahead
  cancel-early t = with_issue_there id p _ i h ∙ rw (a, s, t) refl

  cancel-late : leb at now ≡ true → cancel_scheduled_send now id p ≡ (p, some value_error)
  unfolding cancel_scheduled_send is_ahead
  cancel-late t = with_issue_there id p _ i h ∙ rw (a, s, t) refl

is_due-approved :
    (now : ℕ) (i : Issue) (at : ℕ)
    → is_approved i.status ≡ true
    → i.scheduled_send_at ≡ some at
    → is_due now i ≡ leb at now
unfolding is_due
is_due-approved now i at a s = ground (arith, a, s)

-- An issue that may be edited is approved, and at any later instant one of two things holds. Before its
-- sending time the dispatcher does not take its row, and the approval can be cancelled, after which the
-- issue waits for approval with no sending time. From that time on the dispatcher takes it, and
-- cancelling is refused and changes nothing.
pub approve_window :
    (now later : ℕ) (id by : String) (at : Option ℕ) (p : Press) (i : Issue)
    → get id p.issues ≡ some i
    → is_editable i.status ≡ true
    → let v = approve_and_schedule now id by at p in
      let row = approved_row now by (send_time now at) i in
      let c = cancel_scheduled_send later id v.0 in
      (v.1 ≡ none)
      × (get id v.0.issues ≡ some row)
      × (((later < send_time now at)
            × (is_due later row ≡ false)
            × (c.1 ≡ none)
            × (get id c.0.issues ≡ some (withdrawn_issue later row)))
          ⊎ ((send_time now at ≤ later)
              × IsIn id (due_ids later v.0.issues)
              × (c ≡ (v.0, some value_error))))
unfolding approved_row is_approved
approve_window now later id by at p i h e =
    let row = approved_row now by (send_time now at) i in
    let v = save_issue id row p in
    let there = get-put_self id row p.issues in
    let due = is_due-approved later row (send_time now at) refl refl in
    let late = cancel-late later id v row (send_time now at) there refl refl in
    let early = cancel-early later id v row (send_time now at) there refl refl in
    rw (approve-there now id by at p i h e) (
      refl,
      there,
      elim (Bool-cases (leb (send_time now at) later)) [
        | inl t ↦
            inr (ground (arith, t), IsIn-due_ids later id row v.issues there (due ∙ t), late t)
        | inr t ↦ inl (
          ground (arith, t),
          due ∙ t,
          ap (λ (o : PressResult). o.1) (early t),
          ap (λ (o : PressResult). get id o.0.issues) (early t)
              ∙ get-put_self id (withdrawn_issue later row) v.issues,
        )
      ],
    )
