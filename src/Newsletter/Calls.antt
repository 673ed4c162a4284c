-- ===== src/Newsletter/Calls.antt =====
-- What operators do to the issues of core/newsletter.py, and the workers that send and hide them, as steps.
use gestalt_workframe.Prelude.{
  ℕ, String, Bool, true, false, Option, none, some, List, ◌≡◌, ◌≢◌, IsIn, nat_eq, text_key,
  if◌then◌else◌,
}
use gestalt_workframe.Prelude.Assoc.{get}
use gestalt_workframe.Prelude.Sort.{IsSortedBy}
use gestalt_workframe.Discovery.Rows.{Texts}
use gestalt_workframe.Newsletter.Rows.{Label, Press, Issue, is_sending}
use gestalt_workframe.Newsletter.Labels.{create_empty_issue}
use gestalt_workframe.Newsletter.Schedule.{
  update_editorial, approve_and_schedule, cancel_scheduled_send, write_unpublished,
}
use gestalt_workframe.Newsletter.Finds.{assign_find_to_issue, auto_populate_draft, delete_issue}
use gestalt_workframe.Newsletter.Dispatch.{
  claim, snapshot, assign_ship_number, revert_collided, revert_dispatch, Mailing, send_emails, Post,
  finish_issue,
}

-- What an operator calls in one step: the operations that write under a condition on the status, or whose
-- writes do not touch it, or that delete the row whatever it is.
pub data Call : Type 0 where
  edits : (now : ℕ) → (id markdown : String) → Option String → Call
  approves : (now : ℕ) → (id by : String) → Option ℕ → Call
  cancels : (now : ℕ) → (id : String) → Call
  deletes : (id : String) → Call
  assigns : (find_id : String) → Option String → Call
  populates : (now window_days : ℕ) → (id : String) → Call

unfoldable pub run_call : Texts → Call → Press → Press
run_call tx (edits now id markdown subject) p = (update_editorial tx now id markdown subject p).0
run_call tx (approves now id by at) p = (approve_and_schedule now id by at p).0
run_call tx (cancels now id) p = (cancel_scheduled_send now id p).0
run_call tx (deletes id) p = (delete_issue id p).0
run_call tx (assigns find_id issue) p = (assign_find_to_issue find_id issue p).0
run_call tx (populates now window_days id) p = auto_populate_draft now window_days id p

-- How far a worker is in `_dispatch_issue`, or in `unpublish_issue`, with the row that this read. One that is
-- `failing` met an exception, and one that has `abandoned` an issue has reverted it after collisions.
pub data Task : Type 0 where
  idle : Task
  claimed copied failing abandoned numbered mailed : String → Task
  unpublishing : String → Issue → Task

-- The press, and its workers by number: there are as many as are needed.
pub record Newsroom : Type 0 where
  pub press : Press
  pub tasks : ℕ → Task

unfoldable pub set_task : ℕ → Task → (ℕ → Task) → ℕ → Task
set_task w t tasks v = if nat_eq w v then t else tasks v

-- the issue that a worker has taken and not given back
unfoldable pub issue_of : Task → Option String
issue_of idle = none
issue_of (claimed id) = some id
issue_of (copied id) = some id
issue_of (failing id) = some id
issue_of (abandoned id) = none
issue_of (numbered id) = some id
issue_of (mailed id) = some id
issue_of (unpublishing id i) = none

-- No element is there twice.
abbrev pub IsDistinct : {A : Type 0} → List A → Type 0
IsDistinct = IsSortedBy (λ a b. a ≢ b)

-- An id that was never used, as `uuid4` gives.
pub record IsFresh (id : String) (n : Newsroom) : Type 0 where
  pub unheld : (w : ℕ) → issue_of (n.tasks w) ≢ some id
  pub unmailed : (m : String × String) → IsIn m n.press.mails → m.0 ≢ id

-- A step: a call, a new draft, or a worker's next part of `_dispatch_issue` or of `unpublish_issue`, after
-- which anything else may come first. `_dispatch_issue` is cut after the claim, the snapshot, the
-- numbering or what failed of it, the revert after collisions, and the emails; `unpublish_issue` between
-- its read and its write. A worker that crashes does no more.
pub data Step (tx : Texts) : Newsroom → Newsroom → Type 0 where
  calls : (c : Call) (n : Newsroom) → Step tx n (record n { press = run_call tx c n.press })
  creates :
      (now : ℕ) (id : String) (name : Label → String) (subject : String) (target : ℕ) (n : Newsroom)
      → IsFresh id n
      → Step tx n
          (record n { press = (create_empty_issue tx now id name subject target n.press).0 })
  claims :
      (w now : ℕ) (id : String) (n : Newsroom)
      → n.tasks w ≡ idle
      → (claim now id n.press).1 ≡ true
      → Step tx n
          (record { press = (claim now id n.press).0; tasks = set_task w (claimed id) n.tasks })
  copies :
      (w : ℕ) (id : String) (n : Newsroom)
      → n.tasks w ≡ claimed id
      → Step tx n (record { press = snapshot id n.press; tasks = set_task w (copied id) n.tasks })
  numbers :
      (w now : ℕ) (id : String) (n : Newsroom)
      → n.tasks w ≡ copied id
      → (assign_ship_number now id n.press).1 ≡ none
      → Step tx n (record {
        press = (assign_ship_number now id n.press).0;
        tasks = set_task w (numbered id) n.tasks;
      })
  fails :
      (w : ℕ) (id : String) (n : Newsroom)
      → n.tasks w ≡ copied id
      → Step tx n (record n { tasks = set_task w (failing id) n.tasks })
  reverts :
      (w now : ℕ) (id : String) (n : Newsroom)
      → n.tasks w ≡ failing id
      → Step tx n
          (record { press = revert_dispatch now id n.press; tasks = set_task w idle n.tasks })
  collides :
      (w now : ℕ) (id : String) (n : Newsroom)
      → n.tasks w ≡ copied id
      → Step tx n (record {
        press = revert_collided now id n.press;
        tasks = set_task w (abandoned id) n.tasks;
      })
  reverts_again :
      (w now : ℕ) (id : String) (n : Newsroom)
      → n.tasks w ≡ abandoned id
      → Step tx n
          (record { press = revert_dispatch now id n.press; tasks = set_task w idle n.tasks })
  looks :
      (w : ℕ) (id : String) (i : Issue) (n : Newsroom)
      → n.tasks w ≡ idle
      → get id n.press.issues ≡ some i
      → Step tx n (record n { tasks = set_task w (unpublishing id i) n.tasks })
  hides :
      (w now : ℕ) (id : String) (i : Issue) (n : Newsroom)
      → n.tasks w ≡ unpublishing id i
      → Step tx n
          (record { press = write_unpublished now id i n.press; tasks = set_task w idle n.tasks })
  mails_out :
      (w now : ℕ) (mail : String → Mailing) (subscribers : List String) (id : String) (n : Newsroom)
      → n.tasks w ≡ numbered id
      → IsDistinct subscribers
      → Step tx n (record {
        press = send_emails mail now id subscribers n.press;
        tasks = set_task w (mailed id) n.tasks;
      })
  finishes :
      (w now : ℕ) (post : Post) (id : String) (n : Newsroom)
      → n.tasks w ≡ mailed id
      → Step tx n
          (record { press = (finish_issue now post id n.press).0; tasks = set_task w idle n.tasks })
  crashes : (w : ℕ) (n : Newsroom) → Step tx n (record n { tasks = set_task w idle n.tasks })

pub data Reach (tx : Texts) (s : Newsroom) : Newsroom → Type 0 where
  here : Reach tx s s
  next : {t u : Newsroom} → Reach tx s t → Step tx t u → Reach tx s u

-- Is the issue being sent?
unfoldable pub is_taken : String → Press → Bool
is_taken id p = elim (get id p.issues) [ none ↦ false | some i ↦ is_sending i.status ]

-- The second revert after collisions does not meet an issue that another worker has meanwhile taken, and
-- the write of `unpublish_issue` meets the status that its read met.
unfoldable pub IsCalm : {tx : Texts} {n n' : Newsroom} → Step tx n n' → Type 0
IsCalm (calls c n) = Unit
IsCalm (creates now id name subject target n fresh) = Unit
IsCalm (claims w now id n t h) = Unit
IsCalm (copies w id n t) = Unit
IsCalm (numbers w now id n t h) = Unit
IsCalm (fails w id n t) = Unit
IsCalm (reverts w now id n t) = Unit
IsCalm (collides w now id n t) = Unit
IsCalm (reverts_again w now id n t) = is_taken id n.press ≡ false
IsCalm (looks w id i n t h) = Unit
IsCalm (hides w now id i n t) = (j : Issue) → get id n.press.issues ≡ some j → j.status ≡ i.status
IsCalm (mails_out w now mail subscribers id n t d) = Unit
IsCalm (finishes w now post id n t) = Unit
IsCalm (crashes w n) = Unit

-- every step of a run is
unfoldable pub AllCalm : {tx : Texts} {n n' : Newsroom} → Reach tx n n' → Type 0
unfolding IsCalm
AllCalm here = Unit
AllCalm (next r s) = AllCalm r × IsCalm s
