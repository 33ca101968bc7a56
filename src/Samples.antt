-- ===== src/Samples.antt =====
-- Concrete decimals, entries and brokers, and the theorems at them.
pub mod Numbers
pub mod Recoveries
pub mod Trails
pub mod Entries
mod Fills
mod Removals
mod Acknowledgments
mod Breakers
mod Claims
mod Moves
mod States
mod Subscriptions
mod Reconnects
