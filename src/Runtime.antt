-- ===== src/Runtime.antt =====
-- arc/runtime: the flags that permit trading, how they are restored after a restart, and the
-- recovery that a restart begins with.
pub mod State
pub mod Recovery
mod Tests
