-- ===== src/Queue.antt =====
-- The job queues that plugins provide.
pub mod Memory
pub mod Interface
pub mod Proxy
