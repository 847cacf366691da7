-- ===== src/Health.antt =====
-- The health-check core: the status a history of runs evaluates to.
pub mod Evaluator
