-- ===== src/Budget.antt =====
-- Disbursement of approved budgets: src/budget.
pub mod Model
pub mod Requests
pub mod Settled
pub mod Clearance
pub mod Numbering
pub mod Holding
pub mod Payable
pub mod Resubmission
mod Tests
