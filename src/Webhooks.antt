-- ===== src/Webhooks.antt =====
-- The outbound webhooks of backend/src/modules/integrations
pub mod Delivery
pub mod Attempts
pub mod Retries
mod Tests
