-- ===== src/Outages.antt =====
-- Planned and unplanned outages of systems: maintenances and incidents.
pub mod Tables
pub mod Maintenances
pub mod Incidents
pub mod Consistent
pub mod Kept
pub mod Statuses
pub mod Maintained
pub mod Resolved
pub mod Found
pub mod Suppression
pub mod Schedule
mod Tests
