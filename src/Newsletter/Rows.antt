-- ===== src/Newsletter/Rows.antt =====
-- `NewsletterIssue` and `NewsletterDelivery` of core/db/models.py as far as the operations of
-- core/newsletter.py modelled here read and write them, and the emails that went out.
use gestalt_workframe.Prelude.{ℕ, String, Bool, true, false, Option, none, some, List, text_key}
use gestalt_workframe.Prelude.Assoc.{Assoc, get, put}
use gestalt_workframe.Discovery.Rows.{Desk, Problem, lookup_error}

pub data IssueStatus : Type 0 where
  draft awaiting_approval approved sending sent skipped : IssueStatus

-- A text of digits, or of digits and then letters, each by its place in the alphabet.
pub data Label : Type 0 where
  numbered : ℕ → Label
  lettered : ℕ → List ℕ → Label

-- `finds_json` by the ids in it.
pub record Issue : Type 0 where
  pub ship_number : Option ℕ
  pub display_label : Label
  pub status : IssueStatus
  pub editorial_markdown : String
  pub finds_json : List String
  pub subject : String
  pub approved_by : String
  pub approved_at : Option ℕ
  pub target_send_at : ℕ
  pub scheduled_send_at : Option ℕ
  pub sent_at : Option ℕ
  pub unpublished_at : Option ℕ
  pub updated_at : ℕ

pub data Channel : Type 0 where
  email web linkedin : Channel

pub record Delivery : Type 0 where
  pub issue_id : String
  pub subscriber_id : String
  pub channel : Channel
  pub status : String
  pub sent_at : Option ℕ
  pub error : String

-- The tables, newest delivery first, with the finds of the discovery queue; and each email that was
-- tried, as its issue and its subscriber.
pub record Press : Type 0 where
  pub desk : Desk
  pub issues : Assoc String Issue
  pub deliveries : List Delivery
  pub mails : List (String × String)

abbrev pub PressResult : Type 0
PressResult = Press × Option Problem

abbrev pub save_issue : String → Issue → Press → Press
save_issue id i p = record p { issues = put id i p.issues }

-- the operation on the issue of an id, or the `LookupError` where there is none
unfoldable pub with_issue : String → Press → (Issue → PressResult) → PressResult
with_issue id p next = elim (get id p.issues) [ none ↦ (p, some lookup_error) | some i ↦ next i ]

-- `status in {"draft", "awaiting_approval"}`
unfoldable pub is_editable : IssueStatus → Bool
is_editable IssueStatus.draft = true
is_editable IssueStatus.awaiting_approval = true
is_editable _ = false

unfoldable pub is_approved : IssueStatus → Bool
is_approved IssueStatus.approved = true
is_approved _ = false

unfoldable pub is_sending : IssueStatus → Bool
is_sending IssueStatus.sending = true
is_sending _ = false

-- `status in {"sent", "sending"}`
unfoldable pub has_gone_out : IssueStatus → Bool
has_gone_out IssueStatus.sending = true
has_gone_out IssueStatus.sent = true
has_gone_out _ = false
