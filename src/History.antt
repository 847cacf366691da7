-- ===== src/History.antt =====
-- The history of the health checks in healthcheck-backend/src: the tables of runs and of aggregates,
-- realtime-aggregation.ts, which counts every run in its hour, and retention-job.ts, which rolls old
-- hours up into days and deletes what has expired.
pub mod Tables
mod Tests
pub mod Digest
pub mod Collectors
pub mod Realtime
pub mod Rollup
pub mod Retention
pub mod Counting
pub mod Days
pub mod Conservation
pub mod Recording
pub mod Expiry
pub mod Kept
