-- ===== src/Discovery.antt =====
-- core/discovery_queue.py: the finds that watchers bring in, and what an operator decides about them.
pub mod Rows
mod Decide
pub mod Curate
mod Library
pub mod Lists
mod Watchlist
mod Sources
pub mod Calls
mod Tests
mod Found
mod Frame
pub mod Curated
pub mod Ticker
pub mod Cadence
pub mod Decisions
