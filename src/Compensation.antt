-- ===== src/Compensation.antt =====
-- backend/src/modules/compensation: what couriers are paid.
pub mod Ecma
pub mod StateMachine
pub mod Naturals
pub mod Effective
pub mod RuleConfig
pub mod Metrics
pub mod Periods
pub mod Components
pub mod Breakdown
pub mod Transitions
pub mod Payments
pub mod History
pub mod Ledger
pub mod Totals
pub mod Guarantee
pub mod Refused
pub mod Latest
pub mod ActiveRules
pub mod PaymentRules
pub mod RuleHistory
pub mod Versioning
pub mod Listing
mod Tests
mod LedgerTests
mod RuleTests
