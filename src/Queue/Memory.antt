-- ===== src/Queue/Memory.antt =====
-- plugins/queue-memory-backend/src/memory-queue.ts: the in-memory queue with consumer groups.
pub mod State
pub mod Processing
pub mod Operations
pub mod Permits
pub mod Order
pub mod Dispatch
pub mod Consumers
pub mod Recurring
pub mod Liveness
pub mod Bounds
mod Tests
