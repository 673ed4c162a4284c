-- ===== src/Router.antt =====
-- The router of core/router.py, with core/runtime.py and core/model_transport.py.
pub mod Routes
pub mod Slots
pub mod State
pub mod Gate
pub mod Transport
pub mod Synthesis
pub mod Capability
pub mod Order
pub mod Chat
pub mod Stream
pub mod Source
pub mod Budgets
pub mod Passed
pub mod Chosen
pub mod Frame
pub mod Orderly
pub mod Families
pub mod Limits
pub mod Turns
pub mod Streams
pub mod Breaker
pub mod Spending
mod Tests
