-- ===== src/Majority.antt =====
-- arc/majority: the trigger and the determination on a book snapshot, and one window's state with
-- its side lock.
pub mod Trigger
pub mod State
pub mod Config
pub mod Identity
pub mod Engine
mod Tests
