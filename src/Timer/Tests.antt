-- ===== src/Timer/Tests.antt =====
-- Runs of the theorems of the timer.
