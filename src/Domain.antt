-- ===== src/Domain.antt =====
-- arc/domain: the closed sets of values and the value objects that the other packages share.
pub mod Enums
pub mod Models
pub mod Window
pub mod Money
pub mod Timing
pub mod Health
pub mod Market
mod Tests
