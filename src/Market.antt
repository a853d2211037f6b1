-- ===== src/Market.antt =====
-- arc/market: the opening reference of a market, and the rotation of the markets.
pub mod Ptb
pub mod Table
pub mod Rotation
pub mod Freezing
mod Tests
