-- ===== src/Execution.antt =====
-- arc/execution: the Limit Order Engine, which turns an approved intent into orders and follows
-- them to a terminal state.
pub mod Ids
pub mod Orders
pub mod Venue
pub mod Store
pub mod Intents
pub mod Fills
pub mod Sweep
pub mod Split
pub mod Submit
pub mod Reconcile
pub mod Reprice
pub mod RateLimit
mod Tests
