-- ===== src/Newsletter/Delivered.antt =====
-- What a dispatch of core/newsletter.py does that nothing stops.
use gestalt_workframe.Prelude.{
  ℕ, ◌+◌, String, true, none, some, List, [], ◌∷◌, ◌≡◌, refl, sym, ap, ◌∙◌, text_key, IsIn, All,
}
use mathlib.Core.Path.{subst}
use gestalt_workframe.Prelude.Assoc.{get, get-put_self}
use gestalt_workframe.Newsletter.Rows.{Issue, Press, save_issue, is_approved}
use gestalt_workframe.Newsletter.Labels.{max_ship_number, next_ship_number}
use gestalt_workframe.Newsletter.Finds.{live_finds_for_issue}
use gestalt_workframe.Newsletter.Dispatch.{
  sending_row, snapshot_row, snapshot, assigned, shipped_row, assign_ship_number, settle_number,
  number_issue, send_emails, sent_row, Outside, dispatch_numbered, dispatch_claimed, dispatch_issue,
}
use gestalt_workframe.Newsletter.Spares.{issues-send_emails}
use gestalt_workframe.Newsletter.Sent.{
  mails-All, IsPublished, claim-there, snapshot-there, assign-there, finish-there, max-put_same,
}

-- the row that the emails are made of
abbrev pub ready_row : ℕ → String → Press → Issue → Issue
ready_row now id p i =
    shipped_row now (next_ship_number p.issues)
      (snapshot_row (live_finds_for_issue id p) (sending_row now i))

ship_number-snapshot_row :
    (fs : List String) (i : Issue) → (snapshot_row fs i).ship_number ≡ i.ship_number
unfolding snapshot_row
ship_number-snapshot_row [] i = refl
ship_number-snapshot_row (f ∷ fs) i = refl

number-there :
    (now : ℕ) (id : String) (p : Press) (i : Issue)
    → get id p.issues ≡ some i
    → let q = save_issue id (sending_row now i) p in
      number_issue now assigned id q ≡ (save_issue id (ready_row now id p i) (snapshot id q), none)
unfolding number_issue settle_number next_ship_number live_finds_for_issue
number-there now id p i h =
    let q = save_issue id (sending_row now i) p in
    let j = snapshot_row (live_finds_for_issue id q) (sending_row now i) in
    let r = save_issue id j q in
    let s =
      snapshot-there now id q (sending_row now i) (get-put_self id (sending_row now i) p.issues) in
    let same =
      max-put_same id (sending_row now i) j q.issues (get-put_self id (sending_row now i) p.issues)
        (ship_number-snapshot_row _ (sending_row now i))
      ∙ max-put_same id i (sending_row now i) p.issues h refl in
    ap (λ (x : Press). settle_number now id (assign_ship_number now id x)) s
    ∙ ap (settle_number now id) (assign-there now id r j (get-put_self id j q.issues))
    ∙ ap (λ (n : ℕ). (save_issue id (shipped_row now (n + 1) j) r, none)) same
    ∙ ap (λ (x : Press). (save_issue id (shipped_row now (max_ship_number p.issues + 1) j) x, none))
        (sym s)

-- An approved issue that is dispatched, with its number assigned, is sent: it gets the next number and
-- the finds tagged to it, if there are any, an email is tried for every active subscriber whatever
-- becomes of the others, every find tagged to it is marked as published, and the row as sent then.
pub dispatch_delivers :
    (now : ℕ) (out : Outside) (id : String) (p : Press) (i : Issue)
    → get id p.issues ≡ some i
    → is_approved i.status ≡ true
    → out.numbering ≡ assigned
    → let o = dispatch_issue now out id p in
      (o.1 ≡ none)
      × (get id o.0.issues ≡ some (sent_row now (ready_row now id p i)))
      × All (λ s. IsIn (id, s) o.0.mails) out.subscribers
      × All (IsPublished now id) o.0.desk.finds
unfolding dispatch_issue dispatch_claimed dispatch_numbered
dispatch_delivers now out id p i h a n =
    let q = save_issue id (sending_row now i) p in
    let c = claim-there now id p i h a in
    let ready = save_issue id (ready_row now id p i) (snapshot id q) in
    let path =
      ap (dispatch_claimed now out id) c
      ∙ ap (λ x. dispatch_numbered now out id (number_issue now x id q)) n
      ∙ ap (dispatch_numbered now out id) (number-there now id p i h) in
    let f =
      finish-there now id (send_emails out.mail now id out.subscribers ready) (ready_row now id p i)
        (ap (get id) (issues-send_emails out.mail now id out.subscribers ready)
          ∙ get-put_self id (ready_row now id p i) (snapshot id q).issues)
        out.post in
    rw path (
      f.0,
      f.2,
      subst (λ m. All (λ s. IsIn (id, s) m) out.subscribers) (sym f.1)
          (mails-All out.mail now id out.subscribers ready),
      f.3,
    )
