-- ===== src/Database.antt =====
-- The MySQL database behind internal/repository: tables as lists of rows, newest first, statements
-- that may fail, and transactions.
mod Rows
mod Sessions
pub mod RowLaws
pub mod SessionLaws
pub mod Changes
pub mod Outcomes
pub mod Successes
pub mod Settles
unfoldable pub use Rows.*
unfoldable pub use Sessions.*
