-- ===== src/Examples.antt =====
-- The theorems at concrete inputs, and runs of the program.
pub mod Data
mod Attempts
mod Executions
mod Interfaces
mod Replies
mod Running
mod Scheduling
mod Services
