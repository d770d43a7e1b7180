-- ===== src/Routing.antt =====
-- backend/src/modules/routing
pub mod StateMachine
pub mod Provider
pub mod Stored
pub mod StoredLaws
pub mod Plan
pub mod Points
pub mod Sequence
pub mod Resolved
pub mod Planning
pub mod Planned
pub mod Assignment
pub mod Rows
pub mod Service
pub mod Update
pub mod Exclusive
pub mod Replacing
pub mod Building
pub mod Updating
pub mod Maintaining
pub mod Safety
pub mod Reachable
pub mod Updated
pub mod Updates
pub mod AssignedOrder
pub mod Assigned
mod Tests
mod AssignmentTests
mod RouteTests
