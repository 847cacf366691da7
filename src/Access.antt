-- ===== src/Access.antt =====
-- Access control: rules and their qualified names, team grants, and the middleware of every
-- procedure.
pub mod Rule
pub mod Value
pub mod Teams
pub mod Procedure
pub mod Authorize
pub mod Filter
pub mod Middleware
