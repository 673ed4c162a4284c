-- ===== src/Newsletter/Spares.antt =====
-- What one worker of core/newsletter.py leaves of the other issues.
use gestalt_workframe.Prelude.{
  ℕ, zero, suc, String, true, false, List, [], ◌∷◌, ◌≡◌, ◌≢◌, refl, inl, inr, arith, Bool-cases,
  Option-cases, text_key,
}
use gestalt_workframe.Prelude.Assoc.{get, put, get-put, get-put_self}
use gestalt_workframe.Discovery.Rows.{Texts}
use gestalt_workframe.Newsletter.Rows.{
  Issue, Label, Press, save_issue, is_approved, is_sending, has_gone_out,
}
use gestalt_workframe.Newsletter.Labels.{
  next_display_label, is_label_taken, attempt_issue, create_empty_issue,
}
use gestalt_workframe.Newsletter.Dispatch.{
  claim, snapshot_row, snapshot, shipped_row, assign_ship_number, revert_collided, revert_dispatch,
  Post, sent_row, finish_issue, Mailing, send_emails,
}
use gestalt_workframe.Newsletter.Calls.{is_taken}
use gestalt_workframe.Newsletter.Keeps.{
  is_busy, is_closed, Keeps, Keeps-same, Keeps-status, Keeps-idle, approved-not,
}

-- The emails are as before, and the issues on their way out but for one.
pub record Spares (id : String) (p q : Press) : Type 0 where
  pub mails : q.mails ≡ p.mails
  pub busy : (j : String) → id ≢ j → is_busy j p ≡ true → is_busy j q ≡ true
  pub closed : (j : String) → id ≢ j → is_closed j p ≡ true → is_closed j q ≡ true

Keeps-Spares : (id : String) (p q : Press) → Keeps p q → Spares id p q
Keeps-Spares id p q k = record {
  mails = k.mails;
  busy = λ j n h. k.busy j h;
  closed = λ j n h. k.closed j h;
}

Spares-put :
    (id : String) (i : Issue) (p q : Press)
    → q.mails ≡ p.mails
    → q.issues ≡ put id i p.issues
    → Spares id p q
unfolding is_busy is_closed
Spares-put id i p q m e = record {
  mails = m;
  busy = λ j n h. ground (arith, h, e, get-put id j i p.issues, text_key.agree_iff id j);
  closed = λ j n h. ground (arith, h, e, get-put id j i p.issues, text_key.agree_iff id j);
}

Spares-save : (id : String) (i : Issue) (p : Press) → Spares id p (save_issue id i p)
Spares-save id i p = Spares-put id i p (save_issue id i p) refl refl

attempt-Spares :
    (n : ℕ) (tx : Texts) (now : ℕ) (id : String) (name : Label → String) (subject : String)
    (target : ℕ) (p : Press)
    → Spares id p (attempt_issue n tx now id name subject target p).0
unfolding attempt_issue
attempt-Spares zero tx now id name subject target p = Keeps-Spares id p p (Keeps-same p p refl refl)
attempt-Spares (suc n) tx now id name subject target p =
    elim (Bool-cases (is_label_taken (next_display_label p.issues) p.issues)) [
      | inl e ↦ rw e (attempt-Spares n tx now id name subject target p)
      | inr e ↦ rw e (Spares-save id _ p)
    ]

pub create-Spares :
    (tx : Texts) (now : ℕ) (id : String) (name : Label → String) (subject : String) (target : ℕ)
    (p : Press)
    → Spares id p (create_empty_issue tx now id name subject target p).0
unfolding create_empty_issue
create-Spares = attempt-Spares 3

is_busy-save :
    (id : String) (i : Issue) (p : Press) → is_busy id (save_issue id i p) ≡ is_sending i.status
unfolding is_busy
is_busy-save id i p = rw (get-put_self id i p.issues, is_busy) refl

-- a claim that met a row
pub claim-Keeps :
    (now : ℕ) (id : String) (p : Press)
    → (claim now id p).1 ≡ true
    → Keeps p (claim now id p).0
      × (is_busy id (claim now id p).0 ≡ true)
      × (is_closed id p ≡ false)
      × (is_busy id p ≡ false)
unfolding claim is_busy is_closed is_approved is_sending has_gone_out
claim-Keeps now id p h = elim (Option-cases (get id p.issues)) [
  | inl e ↦ ground (arith, e, h)
  | inr (i, e) ↦ elim (Bool-cases (is_approved i.status)) [
    | inl a ↦
        rw (e, claim, a)
          (
            Keeps-idle id i _ p e (approved-not i.status a),
            is_busy-save id _ p,
            ground (arith, e, a),
            ground (arith, e, a),
          )
    | inr a ↦ ground (arith, e, a, h)
  ]
]

snapshot_row-status : (fs : List String) (i : Issue) → (snapshot_row fs i).status ≡ i.status
unfolding snapshot_row
snapshot_row-status [] i = refl
snapshot_row-status (f ∷ fs) i = refl

pub snapshot-Keeps : (id : String) (p : Press) → Keeps p (snapshot id p)
unfolding snapshot
snapshot-Keeps id p = elim (Option-cases (get id p.issues)) [
  | inl e ↦ rw (e, snapshot) (Keeps-same p p refl refl)
  | inr (i, e) ↦ rw (e, snapshot) (Keeps-status id i _ p e (snapshot_row-status _ i))
]

pub assign-Keeps : (now : ℕ) (id : String) (p : Press) → Keeps p (assign_ship_number now id p).0
unfolding assign_ship_number shipped_row
assign-Keeps now id p = elim (Option-cases (get id p.issues)) [
  | inl e ↦ rw (e, assign_ship_number) (Keeps-same p p refl refl)
  | inr (i, e) ↦ rw (e, assign_ship_number) (Keeps-status id i _ p e refl)
]

pub revert_dispatch-Spares :
    (now : ℕ) (id : String) (p : Press) → Spares id p (revert_dispatch now id p)
unfolding revert_dispatch
revert_dispatch-Spares now id p = elim (Option-cases (get id p.issues)) [
  | inl e ↦ rw (e, revert_dispatch) (Keeps-Spares id p p (Keeps-same p p refl refl))
  | inr (i, e) ↦ elim (Bool-cases (is_sending i.status)) [
    | inl a ↦ rw (e, revert_dispatch, a) (Spares-save id _ p)
    | inr a ↦ rw (e, revert_dispatch, a) (Keeps-Spares id p p (Keeps-same p p refl refl))
  ]
]

pub revert_collided-Spares :
    (now : ℕ) (id : String) (p : Press) → Spares id p (revert_collided now id p)
unfolding revert_collided
revert_collided-Spares now id p = elim (Option-cases (get id p.issues)) [
  | inl e ↦ rw (e, revert_collided) (Keeps-Spares id p p (Keeps-same p p refl refl))
  | inr (i, e) ↦ rw (e, revert_collided) (Spares-save id _ p)
]

-- the revert of an issue that nobody is sending
pub revert_dispatch-Keeps :
    (now : ℕ) (id : String) (p : Press) → is_taken id p ≡ false → Keeps p (revert_dispatch now id p)
unfolding revert_dispatch is_taken
revert_dispatch-Keeps now id p h = elim (Option-cases (get id p.issues)) [
  | inl e ↦ rw (e, revert_dispatch) (Keeps-same p p refl refl)
  | inr (i, e) ↦
      let free : is_sending i.status ≡ false = ground (arith, e, h) in
      rw (e, revert_dispatch, free) (Keeps-same p p refl refl)
]

pub finish-Spares :
    (now : ℕ) (post : Post) (id : String) (p : Press) → Spares id p (finish_issue now post id p).0
unfolding finish_issue
finish-Spares now post id p = elim (Option-cases (get id p.issues)) [
  | inl e ↦ rw (e, finish_issue) (Keeps-Spares id p p (Keeps-same p p refl refl))
  | inr (i, e) ↦ rw (e, finish_issue) (Spares-put id (sent_row now i) p _ refl refl)
]

pub is_closed-finish :
    (now : ℕ) (post : Post) (id : String) (p : Press)
    → is_closed id p ≡ true
    → is_closed id (finish_issue now post id p).0 ≡ true
unfolding finish_issue is_closed has_gone_out
is_closed-finish now post id p h = elim (Option-cases (get id p.issues)) [
  | inl e ↦ rw (e, finish_issue) h
  | inr (i, e) ↦ rw (e, finish_issue, is_closed, get-put_self id (sent_row now i) p.issues) refl
]

pub issues-send_emails :
    (mail : String → Mailing) (now : ℕ) (id : String) (ss : List String) (p : Press)
    → (send_emails mail now id ss p).issues ≡ p.issues
unfolding send_emails
issues-send_emails mail now id [] p = refl
issues-send_emails mail now id (s ∷ ss) p = issues-send_emails mail now id ss _
