-- ===== src/Execution/Reprice/Policy.antt =====
-- The price that a resting order moves to.
