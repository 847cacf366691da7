-- ===== src/Plugins.antt =====
-- The loading of plugins.
pub mod Sorter
pub mod Extensions
