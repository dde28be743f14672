-- ===== src/App.antt =====
-- internal/app and internal/launcher: the roles, how each puts its process together, and the life of
-- a process.
pub mod Roles
pub mod Builders
pub mod Running
pub mod Readiness
pub mod Release
