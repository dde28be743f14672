-- ===== src/Service/Worker/Delivered.antt =====
-- An event from the dispatcher to the end of the work on it: Publish and decodeMessages of
-- internal/pkg/redis/stream.go, and process of internal/service/stream_worker.go.
use chrono_flow.Common.{
  pos_part, pos, ltb_ℤ, ◌^◌, ◌+◌, ◌<◌, String, ◌≡◌, refl, true, false, Option, none, some, arith,
}
use chrono_flow.Effect.{Error, ok}
use chrono_flow.Model.Execution.{TimerExecution, CallbackSnapshot}
use chrono_flow.Model.Outbox.{Payload, OutboxEvent}
use chrono_flow.Database.{Database}
use chrono_flow.Repository.Executions.{is_claimable}
use chrono_flow.Repository.Executions.Wins.{IsUnannounced}
use chrono_flow.Repository.Executions.OneRow.{quiet, Row}
use chrono_flow.Service.Stream.Messages.{decode_message, published_fields, Fields, StreamMessage}
use chrono_flow.Service.Stream.Messages.Delivery.{decode_message-published, IsStore}
use chrono_flow.Service.Worker.{is_malformed, process, CallbackResult, Surroundings}
use chrono_flow.Service.Worker.Quiet.{IsQuiet}
use chrono_flow.Service.Worker.Completion.{process_completes, IsSuccessOf}
use chrono_flow.Service.Worker.Failing.{process_fails, IsFailureOf}
use chrono_flow.Config.{WorkerConfig}
use chrono_flow.Repository.Schedule.{Json}

-- The message that the worker reads of an event.
abbrev pub delivered :
    (Fields → Fields)
    → (String → String)
    → (Payload → String)
    → String
    → OutboxEvent
    → StreamMessage
delivered stored print_bytes encode_payload message_id event =
    decode_message print_bytes
      (record { id = message_id; values = stored (published_fields encode_payload event) })

module _ (stored : Fields → Fields) (laws : IsStore stored) (print_bytes : String → String)
    (encode_payload : Payload → String) (message_id : String) (event : OutboxEvent)
    (positive : 0 < event.aggregate_id) (small : event.aggregate_id < 2 ^ 63) where
  abbrev msg : StreamMessage
  msg = delivered stored print_bytes encode_payload message_id event

  named : pos_part msg.execution_id ≡ event.aggregate_id
  named =
      rw (decode_message-published stored laws print_bytes encode_payload message_id event small)
        refl

  delivered-is_malformed : is_malformed msg ≡ false
  unfolding is_malformed
  delivered-is_malformed =
      let t : ltb_ℤ (pos event.aggregate_id) (pos 1) ≡ false = ground arith in
      rw (decode_message-published stored laws print_bytes encode_payload message_id event small, t)
        refl

  module _ (json : Json) (cfg : WorkerConfig) (owner : String) (text_of : Error → String)
      (world : Surroundings) where
    abbrev pub EndsAs :
        TimerExecution
        → CallbackResult
        → Option Error
        → TimerExecution
        → Database
        → Database
        → Type 0
    EndsAs e result none r before after = IsSuccessOf json cfg owner text_of world e result r
    EndsAs e result (some failure) r before after =
        IsFailureOf json cfg owner text_of world e result failure r before after

    ends :
        (run_token : String) (snapshot : CallbackSnapshot) (db : Database) {e : TimerExecution}
        (outcome : Option Error)
        → Row event.aggregate_id e db
        → is_claimable world.started_at e ≡ true
        → json.decode_snapshot e.request_snapshot ≡ some snapshot
        → IsQuiet world run_token
        → IsUnannounced e.id (e.attempt + 1) db.outbox
        → (world.execute snapshot e.id).error ≡ outcome
        → let end = process json cfg owner text_of world msg (quiet db) in
          (end.0 ≡ ok true)
          × ((r : TimerExecution) × Row e.id r end.1.db
              × EndsAs e (world.execute snapshot e.id) outcome r db end.1.db)
    ends run_token snapshot db {e} none row due decoded q new told =
        process_completes json cfg owner text_of world msg run_token snapshot db {e = e}
          delivered-is_malformed (rw named row) due decoded q told
    ends run_token snapshot db {e} (some failure) row due decoded q new told =
        process_fails json cfg owner text_of world msg run_token snapshot failure db {e = e}
          delivered-is_malformed (rw named row) due decoded q told new

    -- An event of an execution that has an int64 from 1 on as its id: once the dispatcher has
    -- published it, and Redis keeps texts and the prints of integers, a worker that reads it while
    -- the execution is claimable acknowledges it, when no statement fails and nobody else writes,
    -- whatever the callback answers. The row of the execution then records the attempt: as a success
    -- where the callback has given no error, and otherwise as a failure, with the retry and its event
    -- where there is one.
    pub delivered_ends :
        (run_token : String) (snapshot : CallbackSnapshot) (db : Database) {e : TimerExecution}
        → Row event.aggregate_id e db
        → is_claimable world.started_at e ≡ true
        → json.decode_snapshot e.request_snapshot ≡ some snapshot
        → IsQuiet world run_token
        → IsUnannounced e.id (e.attempt + 1) db.outbox
        → let end = process json cfg owner text_of world msg (quiet db) in
          let result = world.execute snapshot e.id in
          (end.0 ≡ ok true)
          × ((r : TimerExecution) × Row e.id r end.1.db
              × EndsAs e result result.error r db end.1.db)
    delivered_ends run_token snapshot db {e} row due decoded q new =
        ends run_token snapshot db (world.execute snapshot e.id).error row due decoded q new refl
