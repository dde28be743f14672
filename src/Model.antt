-- ===== src/Model.antt =====
-- internal/model: the tables of the database and the status rules of a timer.
pub mod Timer
pub mod Execution
pub mod Outbox
pub mod StateMachine
