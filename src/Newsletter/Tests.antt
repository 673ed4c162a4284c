-- ===== src/Newsletter/Tests.antt =====
-- An issue and its subscribers, and the theorems on core/newsletter.py at them.
use gestalt_workframe.Prelude.{
  ◌≤◌, ◌<◌, ◌≡◌, ◌≢◌, ◌⊎◌, refl, String, false, none, some, [], ◌∷◌, All, IsIn, text_key, arith,
}
use gestalt_workframe.Prelude.Assoc.{get, put}
use gestalt_workframe.Discovery.Rows.{Texts, Desk, value_error, raised}
use gestalt_workframe.Newsletter.Rows.{
  draft, approved, Label, lettered, Issue, Press, is_editable, is_approved,
}
use gestalt_workframe.Newsletter.Labels.{
  letters, label_letter, attempt_issue, create_empty_issue, is_label_taken, same_label,
  next_display_label, max_ship_number, same_letters, counts, is_unshipped, is_of_epoch,
}
use gestalt_workframe.Newsletter.Schedule.{
  approved_row, send_time, approve_and_schedule, withdrawn_issue, cancel_scheduled_send,
}
use gestalt_workframe.Newsletter.Finds.{delete_issue}
use gestalt_workframe.Newsletter.Dispatch.{
  assigned, failed, Mailing, claim, snapshot, assign_ship_number, send_emails, Outside, sent_row,
  dispatch_issue, is_due, due_ids,
}
use gestalt_workframe.Newsletter.Calls.{
  Task, set_task, Newsroom, IsDistinct, Step, Reach, IsCalm, AllCalm, claims, copies, numbers,
  mails_out, here, next,
}
use gestalt_workframe.Newsletter.Letters.{reading, label_letter_counts, letters_terminate}
use gestalt_workframe.Newsletter.Blocked.{create_empty_issue_blocked}
use gestalt_workframe.Newsletter.Once.{mailed_once}
use gestalt_workframe.Newsletter.Window.{approve_window}
use gestalt_workframe.Newsletter.Sent.{IsPublished}
use gestalt_workframe.Newsletter.Delivered.{ready_row, dispatch_delivers}

abbrev as_is : Texts
as_is = record { strip = λ s. s; clip = λ n s. s }

abbrev first_draft : Issue
first_draft = record {
  ship_number = none;
  display_label = lettered 0 (0 ∷ []);
  status = draft;
  editorial_markdown = "";
  finds_json = [];
  subject = "Issue 0a";
  approved_by = "";
  approved_at = none;
  target_send_at = 50;
  scheduled_send_at = none;
  sent_at = none;
  unpublished_at = none;
  updated_at = 1;
}

abbrev scheduled : Issue
scheduled = record first_draft { status = approved; scheduled_send_at = some 9 }

abbrev no_desk : Desk
no_desk = record { finds = []; sources = []; audits = []; library_files = []; chroma = [] }

abbrev press_of : Issue → Press
press_of i = record { desk = no_desk; issues = ("i1", i) ∷ []; deliveries = []; mails = [] }

abbrev empty_press : Press
empty_press = record { desk = no_desk; issues = []; deliveries = []; mails = [] }

abbrev one_bounces : String → Mailing
one_bounces s = failed "TimeoutError"

abbrev well : Outside
well = record {
  numbering = assigned;
  subscribers = "ana" ∷ "bo" ∷ [];
  mail = one_bounces;
  post = record { status = "skipped"; reason = "" };
}

-- After `z` come `aa` and `ab`.
letters_of_27 : label_letter 27 ≡ 0 ∷ 1 ∷ []
unfolding label_letter letters
letters_of_27 = refl

label_letter_counts_example :
    (reading 0 (label_letter 27) ≡ 28) × All (λ d. d < 26) (label_letter 27)
label_letter_counts_example = label_letter_counts 27

letters_terminate_example : letters 60 27 [] ≡ letters 28 27 []
letters_terminate_example = letters_terminate 60 28 27 [] (omega arith) (omega arith)

there : get "i1" (press_of first_draft).issues ≡ some first_draft
unfolding get
there = refl

scheduled_there : get "i1" (press_of scheduled).issues ≡ some scheduled
unfolding get
scheduled_there = refl

approve_window_example :
    let v = approve_and_schedule 10 "i1" "ana" (some 90) (press_of first_draft) in
    let row = approved_row 10 "ana" (send_time 10 (some 90)) first_draft in
    let c = cancel_scheduled_send 80 "i1" v.0 in
    (v.1 ≡ none)
    × (get "i1" v.0.issues ≡ some row)
    × (((80 < send_time 10 (some 90))
          × (is_due 80 row ≡ false)
          × (c.1 ≡ none)
          × (get "i1" c.0.issues ≡ some (withdrawn_issue 80 row)))
        ⊎ ((send_time 10 (some 90) ≤ 80)
            × IsIn "i1" (due_ids 80 v.0.issues)
            × (c ≡ (v.0, some value_error))))
unfolding is_editable
approve_window_example =
    approve_window 10 80 "i1" "ana" (some 90) (press_of first_draft) first_draft there refl

dispatch_delivers_example :
    let o = dispatch_issue 10 well "i1" (press_of scheduled) in
    (o.1 ≡ none)
    × (get "i1" o.0.issues ≡ some (sent_row 10 (ready_row 10 "i1" (press_of scheduled) scheduled)))
    × All (λ s. IsIn ("i1", s) o.0.mails) ("ana" ∷ "bo" ∷ [])
    × All (IsPublished 10 "i1") o.0.desk.finds
unfolding is_approved
dispatch_delivers_example =
    dispatch_delivers 10 well "i1" (press_of scheduled) scheduled scheduled_there refl refl

absent : (id : String) → get id empty_press.issues ≡ none
unfolding get
absent id = refl

two_ids : ◌≢◌ {A = String} "i1" "i2"
two_ids e = ground (arith, (text_key.agree_iff "i1" "i2").1 e)

abbrev named : Label → String
named l = "Issue"

one_made : (create_empty_issue as_is 1 "i1" named "" 50 empty_press).1 ≡ none
unfolding create_empty_issue attempt_issue is_label_taken put same_label next_display_label
    max_ship_number same_letters label_letter letters counts is_unshipped is_of_epoch
one_made = refl

two_made :
    (create_empty_issue as_is 2 "i2" named "" 60
      (create_empty_issue as_is 1 "i1" named "" 50 empty_press).0).1
    ≡ none
unfolding create_empty_issue attempt_issue is_label_taken put same_label next_display_label
    max_ship_number same_letters label_letter letters counts is_unshipped is_of_epoch
two_made = refl

create_empty_issue_blocked_example :
    let one = create_empty_issue as_is 1 "i1" named "" 50 empty_press in
    let two = create_empty_issue as_is 2 "i2" named "" 60 one.0 in
    let left = delete_issue "i1" two.0 in
    (left.1 ≡ none)
    × (create_empty_issue as_is 3 "i3" named "" 70 left.0 ≡ (left.0, some (raised "RuntimeError")))
create_empty_issue_blocked_example =
    create_empty_issue_blocked as_is 1 2 3 50 60 70 "i1" "i2" "i3" named "" "" "" empty_press
      two_ids (absent "i1") (absent "i2") one_made two_made

abbrev newsroom : Newsroom
newsroom = record { press = press_of scheduled; tasks = λ w. Task.idle }

abbrev claimed_room : Newsroom
claimed_room = record {
  press = (claim 10 "i1" newsroom.press).0;
  tasks = set_task 1 (Task.claimed "i1") newsroom.tasks;
}

abbrev copied_room : Newsroom
copied_room = record {
  press = snapshot "i1" claimed_room.press;
  tasks = set_task 1 (Task.copied "i1") claimed_room.tasks;
}

abbrev numbered_room : Newsroom
numbered_room = record {
  press = (assign_ship_number 11 "i1" copied_room.press).0;
  tasks = set_task 1 (Task.numbered "i1") copied_room.tasks;
}

abbrev mailed_room : Newsroom
mailed_room = record {
  press = send_emails one_bounces 12 "i1" ("i1" ∷ "i2" ∷ []) numbered_room.press;
  tasks = set_task 1 (Task.mailed "i1") numbered_room.tasks;
}

claim_made : Step as_is newsroom claimed_room
unfolding claim get is_approved
claim_made = claims 1 10 "i1" newsroom refl refl

copy_made : Step as_is claimed_room copied_room
unfolding set_task
copy_made = copies 1 "i1" claimed_room refl

number_made : Step as_is copied_room numbered_room
unfolding claim get put is_approved assign_ship_number snapshot set_task
number_made = numbers 1 11 "i1" copied_room refl refl

mails_made : Step as_is numbered_room mailed_room
unfolding set_task
mails_made =
    mails_out 1 12 one_bounces ("i1" ∷ "i2" ∷ []) "i1" numbered_room refl ((two_ids, tt), (tt, tt))

dispatched : Reach as_is newsroom mailed_room
dispatched = next (next (next (next here claim_made) copy_made) number_made) mails_made

dispatched-AllCalm : AllCalm dispatched
unfolding AllCalm IsCalm dispatched claim_made copy_made number_made mails_made
dispatched-AllCalm = ((((tt, tt), tt), tt), tt)

mailed_once_example : IsDistinct mailed_room.press.mails
mailed_once_example =
    mailed_once as_is newsroom mailed_room (λ w. refl) refl dispatched dispatched-AllCalm
