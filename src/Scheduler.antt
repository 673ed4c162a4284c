-- ===== src/Scheduler.antt =====
-- core/discovery_scheduler.py: which sources are due for a poll, what a poll leaves, and the status of a
-- new find.
pub mod Poll
pub mod Due
pub mod Polite
mod Tests
