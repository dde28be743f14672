-- ===== src/Service/Worker/Failing.antt =====
-- A message whose callback fails, through process of internal/service/stream_worker.go.
use chrono_flow.Common.{
  ltb, pos_part, ◌&&◌, ℕ, ◌+◌, ◌-◌, ◌/◌, String, ◌≡◌, refl, ◌∙◌, Bool, true, false, none, some, ◌∷◌,
}
use chrono_flow.Effect.{run, Error, ok}
use chrono_flow.Model.Timer.{Time, millisecond}
use chrono_flow.Model.Execution.{TimerExecution, CallbackSnapshot, failed, retry_wait}
use chrono_flow.Model.Outbox.{retry_id, execution_retry}
use chrono_flow.Database.{run_sql, Database}
use chrono_flow.Repository.Events.{new_execution_outbox_event}
use chrono_flow.Repository.Executions.{is_claimable, claimed, is_held, failed_attempt, retry_time}
use chrono_flow.Repository.Executions.Wins.{fails, outbox_after, IsUnannounced}
use chrono_flow.Repository.Executions.OneRow.{quiet, Row}
use chrono_flow.Service.Backoff.{add_duration, retry_backoff}
use chrono_flow.Service.Worker.{
  is_malformed, is_retryable_callback_failure, finish_failure, finish, process, CallbackResult,
  Surroundings,
}
use chrono_flow.Service.Worker.Quiet.{IsQuiet, quiet-process}
use chrono_flow.Config.{seconds, WorkerConfig}
use chrono_flow.Repository.Schedule.{Json}
use chrono_flow.Service.Stream.Messages.{StreamMessage}

module _ (json : Json) (cfg : WorkerConfig) (owner : String) (text_of : Error → String)
    (world : Surroundings) where
  -- When the attempt is tried again.
  abbrev pub retry_at : ℕ → Time
  retry_at attempt =
      add_duration world.finished_at
        (retry_backoff cfg.retry_base_seconds cfg.retry_max_seconds attempt)

  -- Whether there is another attempt after this one.
  abbrev pub goes_on : TimerExecution → ℕ → Bool
  goes_on e code = is_retryable_callback_failure code && ltb (e.attempt + 1) e.max_attempts

  abbrev Continues : Bool → TimerExecution → Type 0
  Continues true r = (r.status ≡ retry_wait) × (r.next_attempt_at ≡ some (retry_at r.attempt))
  Continues false r = (r.status ≡ failed) × (r.next_attempt_at ≡ none)

  abbrev Announces : Bool → TimerExecution → Database → Database → Type 0
  Announces true r before after =
      (n : ℕ) × (after.outbox
        ≡ record (new_execution_outbox_event r.id (retry_id r.id r.attempt) execution_retry
            (retry_at r.attempt) world.finished_at) { id = n }
          ∷ before.outbox)
  Announces false r before after = after.outbox ≡ before.outbox

  -- What the row and the outbox are at the end.
  pub record IsFailureOf (e : TimerExecution) (result : CallbackResult) (failure : Error)
      (r : TimerExecution) (before after : Database) : Type 0 where
    pub same : r.id ≡ e.id
    pub counted : r.attempt ≡ e.attempt + 1
    pub limit : r.max_attempts ≡ e.max_attempts
    pub request : r.request_snapshot ≡ e.request_snapshot
    pub code : r.response_code ≡ result.response_code
    pub body : r.response_body ≡ result.response_body
    pub told : r.error_message ≡ text_of failure
    pub ended : r.finished_at ≡ some world.finished_at
    pub continues : Continues (goes_on e result.response_code) r
    pub announces : Announces (goes_on e result.response_code) r before after

  finishes :
      (run_token : String) (c e : TimerExecution) (result : CallbackResult) (failure : Error)
      {db : Database}
      → result.error ≡ some failure
      → Row c.id e db
      → is_held c.id owner run_token e ≡ true
      → (let again = is_retryable_callback_failure result.response_code in
          (again && ltb c.attempt c.max_attempts) ≡ true → IsUnannounced c.id c.attempt db.outbox)
      → let again = is_retryable_callback_failure result.response_code in
        let retry = retry_time (again && ltb c.attempt c.max_attempts) (retry_at c.attempt) in
        let duration = (world.finished_at - world.started_at) / millisecond in
        (after : Database) × (finish json cfg owner text_of world c run_token result (quiet db)
          ≡ (ok true, quiet after))
        × Row c.id
            (failed_attempt world.finished_at result.response_code result.response_body
              (text_of failure)
              duration
              retry
              e)
            after
        × (after.outbox ≡ outbox_after c retry world.finished_at db)
  unfolding finish finish_failure run_sql run
  finishes run_token c e result failure {db} told row held new =
      let (after, answer, there, announced) =
        fails owner run_token world.finished_at result.response_code result.response_body
          (text_of failure) ((world.finished_at - world.started_at) / millisecond)
          (retry_at c.attempt) (is_retryable_callback_failure result.response_code) c {e = e}
          {db = db} row held new in
      (after, rw (told, answer) refl, there, announced)

  abbrev settled_row : TimerExecution → CallbackResult → Error → Bool → TimerExecution
  settled_row e result failure again =
      failed_attempt world.finished_at result.response_code result.response_body (text_of failure)
        ((world.finished_at - world.started_at) / millisecond)
        (retry_time again (retry_at e.attempt)) e

  -- What is left after the row and the outbox have been written.
  told_of :
      (again : Bool) (e c : TimerExecution) (result : CallbackResult) (failure : Error)
      (next : Database) {before after : Database}
      → goes_on e result.response_code ≡ again
      → c.id ≡ e.id
      → c.attempt ≡ e.attempt + 1
      → c.max_attempts ≡ e.max_attempts
      → c.request_snapshot ≡ e.request_snapshot
      → next.outbox ≡ before.outbox
      → after.outbox ≡ outbox_after c (retry_time again (retry_at c.attempt)) world.finished_at next
      → IsFailureOf e result failure (settled_row c result failure again) before after
  unfolding failed_attempt
  told_of true e c result failure next g same counted limit request kept outbox = record {
    same = same;
    counted = counted;
    limit = limit;
    request = request;
    code = refl;
    body = refl;
    told = refl;
    ended = refl;
    continues = rw g (refl, refl);
    announces = rw g (next.next_event_id, rw kept at outbox);
  }
  told_of false e c result failure next g same counted limit request kept outbox = record {
    same = same;
    counted = counted;
    limit = limit;
    request = request;
    code = refl;
    body = refl;
    told = refl;
    ended = refl;
    continues = rw g (refl, refl);
    announces = rw g (outbox ∙ kept);
  }

  pub failing_process :
      (msg : StreamMessage) (run_token : String) (snapshot : CallbackSnapshot) (failure : Error)
      (db : Database) {e : TimerExecution}
      → is_malformed msg ≡ false
      → Row (pos_part msg.execution_id) e db
      → is_claimable world.started_at e ≡ true
      → json.decode_snapshot e.request_snapshot ≡ some snapshot
      → IsQuiet world run_token
      → (world.execute snapshot e.id).error ≡ some failure
      → IsUnannounced e.id (e.attempt + 1) db.outbox
      → (after : Database) × (process json cfg owner text_of world msg (quiet db)
          ≡ (ok true, quiet after))
        × ((r : TimerExecution) × Row e.id r after
            × IsFailureOf e (world.execute snapshot e.id) failure r db after)
  unfolding claimed
  failing_process msg run_token snapshot failure db {e} sound row due decoded q told new =
      let result = world.execute snapshot e.id in
      let c =
        claimed owner run_token world.started_at (world.started_at + seconds cfg.lease_ttl_seconds)
          e in
      quiet-process json cfg owner text_of world msg run_token snapshot db
        (λ after. (r : TimerExecution) × Row e.id r after × IsFailureOf e result failure r db after)
        sound row due decoded q
        (λ last next there held same.
          let now = record c { lease_until = last } in
          let (after, finished, end, outbox) =
            finishes run_token c now result failure {db = next} told there held
              (λ h. rw same new) in
          (
            after,
            finished,
            (
              settled_row now result failure (goes_on e result.response_code),
              end,
              told_of (goes_on e result.response_code) e now result failure next {before = db} refl
                  refl refl refl refl same outbox,
            ),
          ))

  -- From a table with distinct ids and without failing statements: a message for an execution that is
  -- claimable, while nobody else writes and with any ticks of the heartbeat, is acknowledged once the
  -- callback has failed. The row has one more attempt, the response and the text of the error. If the
  -- failure can be retried and the attempts are below the maximum, it waits for a retry after the
  -- backoff, and the event of the retry comes first in the outbox, which had none of it; otherwise it
  -- is FAILED, and the outbox is as it was.
  pub process_fails :
      (msg : StreamMessage) (run_token : String) (snapshot : CallbackSnapshot) (failure : Error)
      (db : Database) {e : TimerExecution}
      → is_malformed msg ≡ false
      → Row (pos_part msg.execution_id) e db
      → is_claimable world.started_at e ≡ true
      → json.decode_snapshot e.request_snapshot ≡ some snapshot
      → IsQuiet world run_token
      → (world.execute snapshot e.id).error ≡ some failure
      → IsUnannounced e.id (e.attempt + 1) db.outbox
      → let end = process json cfg owner text_of world msg (quiet db) in
        (end.0 ≡ ok true)
        × ((r : TimerExecution) × Row e.id r end.1.db
            × IsFailureOf e (world.execute snapshot e.id) failure r db end.1.db)
  process_fails msg run_token snapshot failure db sound row due decoded q told new =
      let (after, answer, end) =
        failing_process msg run_token snapshot failure db sound row due decoded q told new in
      rw answer (refl, end)
