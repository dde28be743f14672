-- ===== src/Handler.antt =====
-- internal/handler. gin and its validator are parameters: a path parameter is a text, and binding a
-- request gives a value or none.
pub mod Replies
pub mod Timers
pub mod Executions
pub mod Monitoring
