-- ===== src/Effect.antt =====
-- Go's errors and the calls that may fail: an action runs on a state and returns a value or an error
-- beside the state that it leaves.
mod Defs
pub mod Keeps
pub mod Yields
unfoldable pub use Defs.*
