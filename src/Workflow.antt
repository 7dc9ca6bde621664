-- ===== src/Workflow.antt =====
-- The approval workflow of proposals: src/proposals/workflow.service.ts.
pub mod Model
pub mod Conditions
pub mod Votes
pub mod Forms
pub mod Store
pub mod Approvers
pub mod Completion
pub mod Submission
pub mod Actions
pub mod Timeline
pub mod Notifications
pub mod Consistency
pub mod Reach
pub mod Outcomes
pub mod Voting
pub mod Seeding
pub mod Generation
pub mod Acted
mod Tests
