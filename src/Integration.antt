-- ===== src/Integration.antt =====
-- Events that are delivered to webhooks.
pub mod Tables
pub mod Subscriptions
pub mod Attempts
pub mod Delivery
