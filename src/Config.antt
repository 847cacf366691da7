-- ===== src/Config.antt =====
-- Versioned configuration records and their migrations.
pub mod Versioning
