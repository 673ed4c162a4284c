-- ===== src/Newsletter.antt =====
-- core/newsletter.py: the issues of the newsletter, from the draft to the send.
mod Rows
mod Labels
mod Schedule
mod Finds
mod Dispatch
mod Calls
mod Found
mod Letters
mod Blocked
mod Window
mod Sent
mod Delivered
mod Hidden
mod Keeps
mod Spares
mod Mails
mod Orderly
mod Once
mod Tests
