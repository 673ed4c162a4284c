-- ===== src/Newsletter/Schedule.antt =====
-- What an operator does to an issue in core/newsletter.py: editing, approving, cancelling, hiding.
use gestalt_workframe.Prelude.{
  ℕ, ◌+◌, String, Bool, true, false, ◌&&◌, Option, none, some, leb, not, text_key, ◌==◌,
  if◌then◌else◌,
}
use gestalt_workframe.Prelude.Assoc.{get}
use gestalt_workframe.Discovery.Rows.{Texts, value_error}
use gestalt_workframe.Newsletter.Rows.{
  awaiting_approval, approved, Issue, Press, PressResult, save_issue, with_issue, is_editable,
  is_approved, has_gone_out,
}

unfoldable pub edited_row : Texts → ℕ → String → Option String → Issue → Issue
edited_row tx now markdown subject i = record i {
  editorial_markdown = tx.clip 20000 markdown;
  subject = elim subject [ none ↦ i.subject | some s ↦ tx.clip 200 (tx.strip s) ];
  updated_at = now;
}

unfoldable pub update_editorial : Texts → ℕ → String → String → Option String → Press → PressResult
update_editorial tx now id markdown subject p = with_issue id p λ i.
    if is_editable i.status
    then (save_issue id (edited_row tx now markdown subject i) p, none)
    else (p, some value_error)

-- `DEFAULT_SCHEDULE_DELAY`, in microseconds
abbrev pub default_schedule_delay : ℕ
default_schedule_delay = 1800000000

unfoldable pub send_time : ℕ → Option ℕ → ℕ
send_time now none = now + default_schedule_delay
send_time now (some at) = if leb at now then now + default_schedule_delay else at

unfoldable pub approved_row : ℕ → String → ℕ → Issue → Issue
approved_row now by at i = record i {
  status = approved;
  approved_by = if by == "" then "admin" else by;
  approved_at = some now;
  scheduled_send_at = some at;
  updated_at = now;
}

unfoldable pub approve_and_schedule : ℕ → String → String → Option ℕ → Press → PressResult
approve_and_schedule now id by at p = with_issue id p λ i.
    if is_editable i.status
    then (save_issue id (approved_row now by (send_time now at) i) p, none)
    else (p, some value_error)

-- `scheduled_send_at.is_not(None)` and `scheduled_send_at > now`
unfoldable pub is_ahead : Option ℕ → ℕ → Bool
is_ahead none now = false
is_ahead (some at) now = not (leb at now)

abbrev pub withdrawn_issue : ℕ → Issue → Issue
withdrawn_issue now i = record i {
  status = awaiting_approval;
  scheduled_send_at = none;
  updated_at = now;
}

unfoldable pub cancel_scheduled_send : ℕ → String → Press → PressResult
cancel_scheduled_send now id p = with_issue id p λ i.
    if is_approved i.status && is_ahead i.scheduled_send_at now
    then (save_issue id (withdrawn_issue now i) p, none)
    else (p, some value_error)

unfoldable pub is_hidden : Issue → Bool
is_hidden i = elim i.unpublished_at [ none ↦ false | some t ↦ true ]

abbrev pub hidden_row : ℕ → Issue → Issue
hidden_row now i = record i { unpublished_at = some now; updated_at = now }

-- `unpublish_issue` with nothing between its read and its write
unfoldable pub unpublish_issue : ℕ → String → Press → PressResult
unpublish_issue now id p = with_issue id p λ i.
    if is_hidden i
    then (p, none)
    else if has_gone_out i.status
    then (save_issue id (hidden_row now i) p, none)
    else if is_approved i.status
    then (save_issue id (hidden_row now (withdrawn_issue now i)) p, none)
    else (p, some value_error)

-- the write of `unpublish_issue`, for the row that it read before: what was read decides, and the row as it
-- now stands is written
unfoldable pub write_unpublished : ℕ → String → Issue → Press → Press
write_unpublished now id seen p = elim (get id p.issues) [
  | none ↦ p
  | some i ↦
      if is_hidden seen
      then p
      else if has_gone_out seen.status
      then save_issue id (hidden_row now i) p
      else if is_approved seen.status
      then save_issue id (hidden_row now (withdrawn_issue now i)) p
      else p
]
