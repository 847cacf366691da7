-- ===== src/Events.antt =====
-- The hooks that plugins use to talk to each other.
pub mod Groups
pub mod Bus
