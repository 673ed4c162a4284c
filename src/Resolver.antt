-- ===== src/Resolver.antt =====
-- core/model_resolver.py, with the models of core/model_catalog.py and the lanes of
-- core/model_lanes.py: which models may serve a turn, and in which order.
pub mod Catalog
pub mod Screen
pub mod Order
pub mod Clears
mod Ahead
pub mod Shortlist
pub mod Reported
mod Tests
