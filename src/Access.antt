-- ===== src/Access.antt =====
-- Roles and permissions: src/access-control.
pub mod Permissions
pub mod Checks
pub mod Roles
pub mod Granting
pub mod Naming
pub mod Taken
mod Tests
