-- ===== src/Risk.antt =====
-- arc/risk: the nineteen gates, and the risk limits. `Context` is the frozen input, `Gates` the
-- gates one by one, `Engine` their evaluation in order; the other modules prove what it admits.
pub mod Limits
pub mod Context
pub mod Gates
pub mod Engine
pub mod Conditions
pub mod Admission
pub mod Denial
mod Tests
