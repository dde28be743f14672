-- ===== src/Service.antt =====
-- internal/service with the packages that it uses: cron, callback and redis of internal/pkg.
pub mod Cron
pub mod Callback
pub mod Scheduler
pub mod Timers
pub mod Backoff
pub mod Dispatcher
pub mod Worker
pub mod Reconciler
pub mod Stream
pub mod ErrorText
pub mod Loops
