-- ===== src/Orders.antt =====
-- backend/src/modules/orders
pub mod StateMachine
pub mod Columns
pub mod Service
pub mod Replay
pub mod Tracking
pub mod Preservation
pub mod Unique
pub mod Creation
pub mod Editing
pub mod Transition
pub mod Steps
pub mod Reachable
mod Tests
