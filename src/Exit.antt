-- ===== src/Exit.antt =====
-- crates/core/src/exit_management: stop-loss and take-profit orders that the gateway places as
-- the entry order fills.
pub mod Reachable
pub mod Types
pub mod Ids
pub mod Coverage
pub mod Index
pub mod Handler
pub mod Registration
pub mod Invariant
pub mod Cancellation
pub mod Placement
pub mod Fill
pub mod FillEvents
pub mod Replace
pub mod Breaker
