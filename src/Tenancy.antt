-- ===== src/Tenancy.antt =====
-- backend/src/prisma: how database calls are confined to one company.
pub mod Isolation
pub mod Actions
pub mod Confinement
pub mod Scoping
pub mod Context
pub mod Services
mod Tests
