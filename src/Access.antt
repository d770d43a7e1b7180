-- ===== src/Access.antt =====
-- backend/src/modules/auth: who may call which route.
pub mod Permissions
pub mod Paths
pub mod Guards
pub mod Authorization
pub mod Documentation
mod Tests
