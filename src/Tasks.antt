-- ===== src/Tasks.antt =====
-- Tasks of projects: src/tasks/tasks.service.ts and src/tasks/tasks.repository.ts.
pub mod Model
pub mod Service
pub mod Summary
pub mod Guards
pub mod Codes
pub mod Counting
mod Tests
