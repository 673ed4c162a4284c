-- ===== src/Newsletter/Dispatch.antt =====
-- `_dispatch_issue` of core/newsletter.py in parts, and what calls it. `number_issue` and `dispatch_issue` run
-- several of its transactions with nothing in between; Calls has them as steps of their own.
-- What sending an email and posting to LinkedIn answer is an argument, as are the active subscribers.
use gestalt_workframe.Prelude.{
  ℕ, ◌+◌, String, Bool, true, false, ◌&&◌, none, some, List, [], ◌∷◌, leb, map, any, select,
  text_key, ◌==◌, if◌then◌else◌,
}
use gestalt_workframe.Prelude.Assoc.{Assoc, get, put}
use gestalt_workframe.Discovery.Rows.{Find, lookup_error, raised}
use gestalt_workframe.Newsletter.Rows.{
  sending, sent, numbered, Issue, email, web, linkedin, Delivery, Press, PressResult, save_issue,
  is_approved, is_sending,
}
use gestalt_workframe.Newsletter.Labels.{next_ship_number}
use gestalt_workframe.Newsletter.Schedule.{withdrawn_issue}
use gestalt_workframe.Newsletter.Finds.{is_tagged, live_finds_for_issue}

abbrev pub sending_row : ℕ → Issue → Issue
sending_row now i = record i { status = sending; updated_at = now }

-- the `UPDATE` that takes an approved issue, and whether it met a row
unfoldable pub claim : ℕ → String → Press → Press × Bool
claim now id p = elim (get id p.issues) [
  | none ↦ (p, false)
  | some i ↦
      if is_approved i.status then (save_issue id (sending_row now i) p, true) else (p, false)
]

-- The finds are copied into the row if there are any.
unfoldable pub snapshot_row : List String → Issue → Issue
snapshot_row [] i = i
snapshot_row (f ∷ fs) i = record i { finds_json = f ∷ fs }

unfoldable pub snapshot : String → Press → Press
snapshot id p = elim (get id p.issues) [
  | none ↦ p
  | some i ↦ save_issue id (snapshot_row (live_finds_for_issue id p) i) p
]

-- What becomes of `_assign_ship_number_with_retry`: a number, the same collision three times, or
-- another exception.
pub data Numbering : Type 0 where
  assigned collided : Numbering
  broken : String → Numbering

unfoldable pub shipped_row : ℕ → ℕ → Issue → Issue
shipped_row now n i = record i {
  ship_number = some n;
  display_label = numbered n;
  updated_at = now;
}

-- `_assign_ship_number_with_retry` where an attempt succeeds; with no row its `scalar_one` raises
unfoldable pub assign_ship_number : ℕ → String → Press → PressResult
assign_ship_number now id p = elim (get id p.issues) [
  | none ↦ (p, some (raised "NoResultFound"))
  | some i ↦ (save_issue id (shipped_row now (next_ship_number p.issues) i) p, none)
]

-- the row after collisions
unfoldable pub revert_collided : ℕ → String → Press → Press
revert_collided now id p = elim (get id p.issues) [
  | none ↦ p
  | some i ↦ save_issue id (withdrawn_issue now i) p
]

-- the row after any exception before the emails
unfoldable pub revert_dispatch : ℕ → String → Press → Press
revert_dispatch now id p = elim (get id p.issues) [
  | none ↦ p
  | some i ↦ if is_sending i.status then save_issue id (withdrawn_issue now i) p else p
]

-- what becomes of an attempt to number an issue
unfoldable pub settle_number : ℕ → String → PressResult → PressResult
settle_number now id o = elim o.1 [ none ↦ o | some e ↦ (revert_dispatch now id o.0, some e) ]

-- the part between the claim and the emails, run with nothing in between
unfoldable pub number_issue : ℕ → Numbering → String → Press → PressResult
number_issue now assigned id p = settle_number now id (assign_ship_number now id (snapshot id p))
number_issue now collided id p =
    (revert_dispatch now id (revert_collided now id (snapshot id p)), some (raised "RuntimeError"))
number_issue now (broken e) id p = (revert_dispatch now id (snapshot id p), some (raised e))

-- What `send_internal_email` returns or raises.
pub data Mailing : Type 0 where
  mailed failed : String → Mailing

unfoldable pub email_delivery : ℕ → String → String → Mailing → Delivery
email_delivery now id subscriber (mailed status) = record {
  issue_id = id;
  subscriber_id = subscriber;
  channel = email;
  status = status;
  sent_at = if status == "sent" then some now else none;
  error = "";
}
email_delivery now id subscriber (failed error) = record {
  issue_id = id;
  subscriber_id = subscriber;
  channel = email;
  status = "failed";
  sent_at = none;
  error = error;
}

-- the loop over the active subscribers
unfoldable pub send_emails : (String → Mailing) → ℕ → String → List String → Press → Press
send_emails mail now id [] p = p
send_emails mail now id (s ∷ ss) p = send_emails mail now id ss (record p {
  deliveries = email_delivery now id s (mail s) ∷ p.deliveries;
  mails = (id, s) ∷ p.mails;
})

abbrev pub published_row : ℕ → Find → Find
published_row now f = record f { newsletter_pending = false; published_in_newsletter_at = some now }

-- one of the finds tagged to the issue, or where there are none of those in `finds_json`
unfoldable pub is_included : Bool → String → List String → String × Find → Bool
is_included tags id snap r = if tags then is_tagged id r.1 else any (λ j. j == r.0) snap

unfoldable pub published_finds : ℕ → String → List String → Assoc String Find → Assoc String Find
published_finds now id snap finds =
    let tags = any (λ r. is_tagged id r.1) finds in
    map (λ r. (r.0, if is_included tags id snap r then published_row now r.1 else r.1)) finds

-- What `_post_to_linkedin` returns.
pub record Post : Type 0 where
  pub status : String
  pub reason : String

abbrev pub other_deliveries : ℕ → String → Post → List Delivery → List Delivery
other_deliveries now id post ds =
    record {
      issue_id = id;
      subscriber_id = "";
      channel = linkedin;
      status = post.status;
      sent_at = if post.status == "sent" then some now else none;
      error = if post.status == "failed" then post.reason else "";
    }
    ∷ record {
      issue_id = id;
      subscriber_id = "";
      channel = web;
      status = "sent";
      sent_at = some now;
      error = "";
    }
    ∷ ds

abbrev pub sent_row : ℕ → Issue → Issue
sent_row now i = record i { status = sent; sent_at = some now; updated_at = now }

-- the part after the emails, one transaction
unfoldable pub finish_issue : ℕ → Post → String → Press → PressResult
finish_issue now post id p = elim (get id p.issues) [
  | none ↦ (p, some (raised "StaleDataError"))
  | some i ↦ (
    record p {
      desk = record p.desk { finds = published_finds now id i.finds_json p.desk.finds };
      deliveries = other_deliveries now id post p.deliveries;
      issues = put id (sent_row now i) p.issues;
    },
    none,
  )
]

-- What the outside answers to one dispatch.
pub record Outside : Type 0 where
  pub numbering : Numbering
  pub subscribers : List String
  pub mail : String → Mailing
  pub post : Post

-- the end of `_dispatch_issue`, after the numbering
unfoldable pub dispatch_numbered : ℕ → Outside → String → PressResult → PressResult
dispatch_numbered now out id o = elim o.1 [
  | none ↦ finish_issue now out.post id (send_emails out.mail now id out.subscribers o.0)
  | some e ↦ o
]

-- An issue that was not taken is no error if it is there.
unfoldable pub dispatch_claimed : ℕ → Outside → String → Press × Bool → PressResult
dispatch_claimed now out id c =
    if c.1
    then dispatch_numbered now out id (number_issue now out.numbering id c.0)
    else elim (get id c.0.issues) [ none ↦ (c.0, some lookup_error) | some i ↦ (c.0, none) ]

-- `_dispatch_issue` run with nothing in between
unfoldable pub dispatch_issue : ℕ → Outside → String → Press → PressResult
dispatch_issue now out id p = dispatch_claimed now out id (claim now id p)

-- the `where` clauses of `dispatch_scheduled_issues`
unfoldable pub is_due : ℕ → Issue → Bool
is_due now i = elim i.scheduled_send_at [
  | none ↦ false
  | some at ↦ is_approved i.status && leb at now
]

unfoldable pub due_ids : ℕ → Assoc String Issue → List String
due_ids now issues = map (λ r. r.0) (select (λ r. is_due now r.1) issues)

-- the loop of `dispatch_scheduled_issues`, with its counts
unfoldable pub dispatch_all :
    ℕ → (String → Outside) → List String → (dispatched failures : ℕ) → Press → Press × ℕ × ℕ
dispatch_all now out [] dispatched failures p = (p, dispatched, failures)
dispatch_all now out (id ∷ ids) dispatched failures p =
    let o = dispatch_issue now (out id) id p in
    let well = dispatch_all now out ids (dispatched + 1) failures o.0 in
    let ill = dispatch_all now out ids dispatched (failures + 1) o.0 in
    elim o.1 [ none ↦ well | some e ↦ ill ]

unfoldable pub dispatch_scheduled_issues : ℕ → (String → Outside) → Press → Press × ℕ × ℕ
dispatch_scheduled_issues now out p = dispatch_all now out (due_ids now p.issues) 0 0 p
