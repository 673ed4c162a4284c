-- ===== src/Newsletter/Hidden.antt =====
-- An issue of core/newsletter.py that is hidden while it is scheduled.
use gestalt_workframe.Prelude.{
  ℕ, String, true, Option, none, some, List, [], ◌∷◌, ◌≡◌, refl, ◌∙◌, text_key, IsIn, All, arith,
}
use gestalt_workframe.Prelude.Assoc.{get, get-put_self}
use gestalt_workframe.Newsletter.Rows.{
  sent, Issue, Press, save_issue, is_editable, is_approved, has_gone_out,
}
use gestalt_workframe.Newsletter.Schedule.{
  approved_row, send_time, approve_and_schedule, is_hidden, hidden_row, withdrawn_issue,
  unpublish_issue,
}
use gestalt_workframe.Newsletter.Dispatch.{
  sending_row, snapshot_row, shipped_row, assigned, sent_row, Outside, dispatch_issue,
}
use gestalt_workframe.Newsletter.Finds.{live_finds_for_issue}
use gestalt_workframe.Newsletter.Window.{approve-there}
use gestalt_workframe.Newsletter.Delivered.{ready_row, dispatch_delivers}
use gestalt_workframe.Newsletter.Found.{with_issue_there}

unpublish-there :
    (now : ℕ) (id : String) (p : Press) (i : Issue)
    → get id p.issues ≡ some i
    → is_approved i.status ≡ true
    → i.unpublished_at ≡ none
    → unpublish_issue now id p ≡ (save_issue id (hidden_row now (withdrawn_issue now i)) p, none)
unfolding unpublish_issue is_hidden is_approved has_gone_out
unpublish-there now id p i h a u = with_issue_there id p _ i h ∙ ground (arith, a, u)

unpublished_at-snapshot_row :
    (fs : List String) (i : Issue) → (snapshot_row fs i).unpublished_at ≡ i.unpublished_at
unfolding snapshot_row
unpublished_at-snapshot_row [] i = refl
unpublished_at-snapshot_row (f ∷ fs) i = refl

-- An approved issue that is hidden goes back to waiting for approval. When it is approved again and
-- dispatched, with its number assigned, every active subscriber's email is tried and the row is marked
-- as sent, and it is still hidden, since the first instant.
pub hidden_stays :
    (now later last : ℕ) (id by : String) (at : Option ℕ) (out : Outside) (p : Press) (i : Issue)
    → get id p.issues ≡ some i
    → is_approved i.status ≡ true
    → i.unpublished_at ≡ none
    → out.numbering ≡ assigned
    → let a = unpublish_issue now id p in
      let b = approve_and_schedule later id by at a.0 in
      let c = dispatch_issue last out id b.0 in
      (a.1 ≡ none)
      × (b.1 ≡ none)
      × (c.1 ≡ none)
      × All (λ s. IsIn (id, s) c.0.mails) out.subscribers
      × ((r : Issue) × (get id c.0.issues ≡ some r)
          × (r.status ≡ sent)
          × (r.unpublished_at ≡ some now))
unfolding is_editable is_approved approved_row shipped_row
hidden_stays now later last id by at out p i h s u n =
    let hidden = hidden_row now (withdrawn_issue now i) in
    let scheduled = approved_row later by (send_time later at) hidden in
    let q = save_issue id hidden p in
    let r = save_issue id scheduled q in
    let a = unpublish-there now id p i h s u in
    let b = approve-there later id by at q hidden (get-put_self id hidden p.issues) refl in
    let d = dispatch_delivers last out id r scheduled (get-put_self id scheduled q.issues) refl n in
    rw (a, b)
      (
        refl,
        refl,
        d.0,
        d.2,
        (
          sent_row last (ready_row last id r scheduled),
          d.1,
          refl,
          unpublished_at-snapshot_row (live_finds_for_issue id r) (sending_row last scheduled),
        ),
      )
