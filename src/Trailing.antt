-- ===== src/Trailing.antt =====
-- crates/core/src/trailing_stop: stop orders that follow the price, for brokers that have none of
-- their own. Surroundings: what the handler calls. Handler: its state, registration and
-- cancellation. Orders: placing and moving a stop order. Prices: price updates and disconnections.
-- Activation and Recovery: the start of tracking, and the retries of what could not start.
pub mod Types
pub mod Surroundings
pub mod Handler
pub mod Orders
pub mod Prices
pub mod Activation
pub mod Recovery
pub mod Stops
pub mod Backoff
pub mod Machine
pub mod Outcomes
pub mod Adjustments
pub mod Cancelling
pub mod Clock
pub mod Peaks
pub mod Tally
pub mod Rescue
pub mod Admission
