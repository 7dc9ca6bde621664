-- ===== src/Evaluations.antt =====
-- Evaluations of proposals and projects: src/evaluations/evaluations.service.ts.
pub mod Model
pub mod Scores
pub mod Listing
mod Tests
