-- ===== src/Lib.antt =====
-- ChronoFlow: a timer service that stores due callbacks as executions in MySQL, publishes them by a
-- transactional outbox to a Redis stream, and runs them by workers that hold leases.
--
-- Parts and files
--   Common       numbers, lists and tests that all files share; Decimal has ParseInt and FormatInt
--   Effect       Go errors: actions on a state that return a value or an error (`if err != nil`); Keeps
--                is for invariants of the state, Yields for relations of result and state
--   Database     the tables as lists of rows, newest first; statements that may fail; transactions that
--                roll back; what other sessions commit in between (`meanwhile`)
--   Model        internal/model: timers, executions, outbox events, the state machine of timers
--   Config       internal/config/config.go: the normalize* functions, and Config/Loading (Load, setDefaults)
--   Repository   internal/repository, one file for each of its files: Executions (Claim, Heartbeat,
--                CompleteSuccess, CompleteFailure), Schedule (ScheduleDueBatch), Outbox (ClaimBatch,
--                MarkPublished, MarkFailed), Recovery (RecoverBatch, Cleanup), Timers with
--                Timers/Listing (timer definitions), Queries (execution_query_repo.go); Events has the
--                rows that they append to the outbox. Invariant, Lifecycle and Histories are about all of
--                them together, Histories/CoherentEvents about what the events say
--   Service      internal/service: Scheduler (schedule, resolveTimer), Dispatcher (dispatchOnce), Worker
--                (process, heartbeat, finishFailure) with Worker/Loop (Start, submit); Worker/Quiet and its
--                siblings are about a message that is worked on undisturbed. Reconciler, Timers
--                with Timers/Listing (TimerService), Backoff (both delays), ErrorText (both truncations);
--                and what they use of internal/pkg: Cron, Callback with Callback/Execute (client.go),
--                Stream with Stream/Messages (stream.go) and Stream/Retention (the cleaner). Loops has
--                Start of the scheduler, the dispatcher and the reconciler, with Loops/Survival
--   Handler      internal/handler: Timers, Executions, Monitoring; Replies is what they share
--   App          internal/app: Roles, Builders (the New* functions), Running (Run, Close) with
--                internal/launcher, Readiness
--   Migration    internal/migration: ParseCommand, Execute, RunCLI
--   Metrics      internal/pkg/metrics/reporter.go, and what the services report to it
--   Collector    k6/callback/main.go: the counters of the load tests
--   Api          internal/middleware: the API key and the origins
--   Examples     the theorems at concrete inputs
--
-- How the parts meet: a handler calls the timer service; the scheduler inserts executions and
-- events in one transaction; the dispatcher claims events and publishes them; the worker decodes a
-- message, claims the execution that it names, renews its lease while the callback runs, and writes
-- the result under its run token; the reconciler puts back what got stuck. The roles are processes
-- that share only the database and the stream, so a run of the program is a sequence of repository
-- calls (Repository/Histories). The conditions of each UPDATE are Boolean functions on rows, and
-- RowsAffected is the count of the rows that match: every UPDATE also sets updated_at, so that MySQL counts a matching row as changed.
--
-- Bounds. Times are nanoseconds since the epoch, and ids and counts are natural numbers; `int` and
-- `int64` settings are integers, with 64-bit wrap-around in the normalisation, the delays, the
-- pages and the limit of a body (Common/Int); the other durations are taken to fit int64
-- nanoseconds. No loop needs fuel: the loop of catching up makes at most max_catch_up rounds, the
-- loop of a worker follows the list of its rounds, a number is printed in 20 rounds, enough for an
-- int64 (Common/Decimal), and the loops over batches follow their lists. A session carries a list
-- that says which of its statements fail. Bodies and error texts are bytes, where their lengths
-- count.
--
-- Parameters: encoding/json at the types in use (Json), the JSON of a payload, robfig/cron
-- (CronLibrary), net/url and net (Net), net/http and net/textproto (Http), gin's binding of a
-- request (none where it fails), golang-migrate (Engine), how MySQL compares texts in the lists
-- (Collation), the column created_at and the order that MySQL gives, in each query anew, to rows of
-- equal created_at (RowOrder), float64, strings.TrimSpace and strings.ToLower (Text), the vectors of
-- client_golang (Vectors), Redis with what it keeps of an entry (IsStore), the pool of a worker, the
-- clock, the callback, random run tokens, which row locks SKIP LOCKED passes over, and, in the calls
-- of the dispatcher and the worker, the text of an error that is stored.
--
-- Not modelled: created_at and updated_at apart from the order of lists, logging, the reports of
-- the worker beyond the counters, the router of the API with its proxy to Grafana, opening the
-- database, and the HTTP server of the load tests with a reset while requests are served. A DELETE
-- with a LIMIT deletes the rows that have the ids of the selected ones. An open of MySQL that fails
-- is taken to leave nothing to close. lease_owner, run_token and claim_owner are compared exactly, where
-- MySQL compares them by the collation of the column (utf8mb4_unicode_ci), so that texts that differ in
-- case only are the same to it; times are kept to the nanosecond, where a column of type DATETIME(3)
-- rounds them to milliseconds. catch_up_limit makes no round for a negative limit, for which the source
-- panics; there is none after the normalisation of the settings.
mod Common
pub mod Effect
pub mod Model
pub mod Database
pub mod Config
pub mod Repository
pub mod Service
pub mod Handler
pub mod App
pub mod Migration
pub mod Collector
pub mod Metrics
pub mod Api
mod Examples
