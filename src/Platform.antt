-- ===== src/Platform.antt =====
-- The owners of the installation, in backend/src/modules/platform and
-- backend/src/modules/tenant-provisioning: companies, their first users, the platform's administrators and
-- their sessions in companies, with the answers of backend/src/modules/auth to the tokens of each.
pub mod Companies
pub mod Rows
pub mod Service
pub mod Provisioning
pub mod Impersonation
pub mod Steps
pub mod SessionTables
pub mod Admins
pub mod Sessions
pub mod Ended
pub mod Accepted
mod Tests
