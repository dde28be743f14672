-- ===== src/Repository.antt =====
-- internal/repository
pub mod Invariant
pub mod Events
pub mod Executions
pub mod Outbox
pub mod Recovery
pub mod Schedule
pub mod Timers
pub mod Queries
pub mod Lifecycle
pub mod Histories
