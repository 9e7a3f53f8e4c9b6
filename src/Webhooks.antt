-- ===== src/Webhooks.antt =====
-- The webhooks of shared/webhooks.
pub mod Guard
pub mod Delivery
mod Tests
