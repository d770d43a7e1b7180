-- ===== src/Integrations.antt =====
-- backend/src/modules/integrations/integrations.service.ts
pub mod Settings
pub mod SettingsLaws
pub mod Rows
pub mod Import
pub mod Responses
pub mod Processing
pub mod Events
pub mod Idempotence
pub mod Repeating
pub mod Linked
pub mod Consistency
pub mod Preserving
mod Tests
