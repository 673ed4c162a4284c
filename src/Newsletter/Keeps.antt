-- ===== src/Newsletter/Keeps.antt =====
-- What the operations of core/newsletter.py leave of the status of issues on their way out.
use gestalt_workframe.Prelude.{
  ℕ, String, Bool, true, false, Option, none, some, ◌≡◌, refl, ap, ◌∙◌, inl, inr, arith,
  Option-cases, text_key, ◌&&◌, ◌||◌, if◌then◌else◌,
}
use gestalt_workframe.Prelude.Assoc.{get, get-put, get-delete}
use gestalt_workframe.Discovery.Rows.{Texts, value_error}
use gestalt_workframe.Newsletter.Rows.{
  IssueStatus, Issue, Press, PressResult, save_issue, with_issue, is_editable, is_approved,
  is_sending, has_gone_out,
}
use gestalt_workframe.Newsletter.Schedule.{
  edited_row, update_editorial, approve_and_schedule, is_ahead, cancel_scheduled_send, is_hidden,
  write_unpublished,
}
use gestalt_workframe.Newsletter.Finds.{assign_find_to_issue, auto_populate_draft, delete_issue}
use gestalt_workframe.Newsletter.Calls.{
  Call, edits, approves, cancels, deletes, assigns, populates, run_call,
}

-- An issue that is being sent, or is gone.
unfoldable pub is_busy : String → Press → Bool
is_busy id p = elim (get id p.issues) [ none ↦ true | some i ↦ is_sending i.status ]

-- An issue that is being sent, was sent, or is gone.
unfoldable pub is_closed : String → Press → Bool
is_closed id p = elim (get id p.issues) [ none ↦ true | some i ↦ has_gone_out i.status ]

-- The emails, and the issues of these two kinds, are as before.
pub record Keeps (p q : Press) : Type 0 where
  pub mails : q.mails ≡ p.mails
  pub busy : (id : String) → is_busy id p ≡ true → is_busy id q ≡ true
  pub closed : (id : String) → is_closed id p ≡ true → is_closed id q ≡ true

pub Keeps-same : (p q : Press) → q.mails ≡ p.mails → q.issues ≡ p.issues → Keeps p q
unfolding is_busy is_closed
Keeps-same p q m e = record { mails = m; busy = λ id h. rw e h; closed = λ id h. rw e h }

pub Keeps-save :
    (id : String) (i j : Issue) (p : Press)
    → get id p.issues ≡ some i
    → (is_sending i.status ≡ true → is_sending j.status ≡ true)
    → (has_gone_out i.status ≡ true → has_gone_out j.status ≡ true)
    → Keeps p (save_issue id j p)
unfolding is_busy is_closed
Keeps-save id i j p e s g = record {
  mails = refl;
  busy = λ k h. ground (arith, e, s, get-put id k j p.issues, text_key.agree_iff id k);
  closed = λ k h. ground (arith, e, g, get-put id k j p.issues, text_key.agree_iff id k);
}

pub Keeps-with_issue :
    (id : String) (p : Press) (next : Issue → PressResult)
    → ((i : Issue) → get id p.issues ≡ some i → Keeps p (next i).0)
    → Keeps p (with_issue id p next).0
unfolding with_issue
Keeps-with_issue id p next keep = elim (Option-cases (get id p.issues)) [
  | inl e ↦ rw (e, with_issue) (Keeps-same p p refl refl)
  | inr (i, e) ↦ rw (e, with_issue) (keep i e)
]

Keeps-if :
    (b : Bool) (p : Press) (x y : PressResult)
    → (b ≡ true → Keeps p x.0)
    → (b ≡ false → Keeps p y.0)
    → Keeps p (if b then x else y).0
Keeps-if true p x y h k = h refl
Keeps-if false p x y h k = k refl

delete-Keeps : (id : String) (p : Press) → Keeps p (delete_issue id p).0
unfolding delete_issue is_busy is_closed
delete-Keeps id p = Keeps-with_issue id p _ λ i e. record {
  mails = refl;
  busy = λ k h. ground (arith, h, get-delete id k p.issues, text_key.agree_iff id k);
  closed = λ k h. ground (arith, h, get-delete id k p.issues, text_key.agree_iff id k);
}

assign-Keeps :
    (find_id : String) (issue : Option String) (p : Press)
    → Keeps p (assign_find_to_issue find_id issue p).0
unfolding assign_find_to_issue
assign-Keeps find_id issue p = elim (Option-cases (get find_id p.desk.finds)) [
  | inl e ↦ rw (e, assign_find_to_issue) (Keeps-same p p refl refl)
  | inr (f, e) ↦
      rw (e, assign_find_to_issue)
        (elim (Option-cases issue) [
          | inl k ↦ rw k (Keeps-same p _ refl refl)
          | inr (id, k) ↦ rw k (
              Keeps-with_issue id p _ (λ i h.
                Keeps-if (is_editable i.status || is_approved i.status) p _ (p, some value_error)
                  (λ t. Keeps-same p _ refl refl) (λ t. Keeps-same p p refl refl)))
        ])
]

-- no row that an operator may edit or cancel is on its way out
editable-not :
    (s : IssueStatus) → is_editable s ≡ true → (is_sending s ≡ false) × (has_gone_out s ≡ false)
unfolding is_editable is_sending has_gone_out
editable-not s h = ground arith

pub approved-not :
    (s : IssueStatus) → is_approved s ≡ true → (is_sending s ≡ false) × (has_gone_out s ≡ false)
unfolding is_approved is_sending has_gone_out
approved-not s h = ground arith

-- a row that is not on its way out, whatever becomes of it
pub Keeps-idle :
    (id : String) (i j : Issue) (p : Press)
    → get id p.issues ≡ some i
    → (is_sending i.status ≡ false) × (has_gone_out i.status ≡ false)
    → Keeps p (save_issue id j p)
Keeps-idle id i j p e h =
    Keeps-save id i j p e (λ k. ground (arith, k, h)) (λ k. ground (arith, k, h))

-- a row with the status that it had
pub Keeps-status :
    (id : String) (i j : Issue) (p : Press)
    → get id p.issues ≡ some i
    → j.status ≡ i.status
    → Keeps p (save_issue id j p)
Keeps-status id i j p e h =
    Keeps-save id i j p e (λ k. ap is_sending h ∙ k) (λ k. ap has_gone_out h ∙ k)

pub run_call-Keeps : (tx : Texts) (c : Call) (p : Press) → Keeps p (run_call tx c p)
unfolding run_call update_editorial approve_and_schedule cancel_scheduled_send auto_populate_draft
    edited_row
run_call-Keeps tx (edits now id markdown subject) p = Keeps-with_issue id p _ λ i e.
    Keeps-if (is_editable i.status) p _ (p, some value_error)
      (λ h. Keeps-idle id i _ p e (editable-not i.status h)) (λ h. Keeps-same p p refl refl)
run_call-Keeps tx (approves now id by at) p = Keeps-with_issue id p _ λ i e.
    Keeps-if (is_editable i.status) p _ (p, some value_error)
      (λ h. Keeps-idle id i _ p e (editable-not i.status h)) (λ h. Keeps-same p p refl refl)
run_call-Keeps tx (cancels now id) p = Keeps-with_issue id p _ λ i e.
    Keeps-if (is_approved i.status && is_ahead i.scheduled_send_at now) p _ (p, some value_error)
      (λ h. Keeps-idle id i _ p e (approved-not i.status (ground (arith, h))))
      (λ h. Keeps-same p p refl refl)
run_call-Keeps tx (deletes id) p = delete-Keeps id p
run_call-Keeps tx (assigns find_id issue) p = assign-Keeps find_id issue p
run_call-Keeps tx (populates now window_days id) p = Keeps-same p _ refl refl

if-Keeps :
    (b : Bool) (p x y : Press)
    → (b ≡ true → Keeps p x)
    → (b ≡ false → Keeps p y)
    → Keeps p (if b then x else y)
if-Keeps true p x y h k = h refl
if-Keeps false p x y h k = k refl

-- the write of `unpublish_issue` where the row has the status that was read
pub write_unpublished-Keeps :
    (now : ℕ) (id : String) (seen : Issue) (p : Press)
    → ((i : Issue) → get id p.issues ≡ some i → i.status ≡ seen.status)
    → Keeps p (write_unpublished now id seen p)
unfolding write_unpublished
write_unpublished-Keeps now id seen p same = elim (Option-cases (get id p.issues)) [
  | inl e ↦ rw (e, write_unpublished) (Keeps-same p p refl refl)
  | inr (i, e) ↦
      rw (e, write_unpublished)
        (if-Keeps (is_hidden seen) p p _ (λ h. Keeps-same p p refl refl)
          (λ h.
            if-Keeps (has_gone_out seen.status) p _ _ (λ k. Keeps-status id i _ p e refl)
              (λ k.
                if-Keeps (is_approved seen.status) p _ p
                  (λ a.
                    Keeps-idle id i _ p e (approved-not i.status (ap is_approved (same i e) ∙ a)))
                  (λ a. Keeps-same p p refl refl))))
]
