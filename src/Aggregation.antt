-- ===== src/Aggregation.antt =====
-- The statistics that a health check keeps of its runs.
pub mod Incremental
pub mod Counts
pub mod Tiers
pub mod Combine
