-- ===== src/Repository/Events.antt =====
-- The rows that the repositories append to outbox_events: newExecutionOutboxEvent of
-- internal/repository/timer_execution_repo.go, and tx.Create(event).
use chrono_flow.Common.{if◌then◌else◌, any, ℕ, ◌+◌, none, ◌∷◌}
use chrono_flow.Effect.{◌>>=◌, pure, raise, database, Result, ok, err}
use chrono_flow.Model.Timer.{Time}
use chrono_flow.Model.Outbox.{event_id_eq, OutboxEvent, EventType, EventId}
use chrono_flow.Database.{Sql, statement, Database}

unfoldable pub new_execution_outbox_event : ℕ → EventId → EventType → Time → Time → OutboxEvent
new_execution_outbox_event execution_id event_id event_type available_at created_at = record {
  id = 0;
  event_id = event_id;
  aggregate_id = execution_id;
  event_type = event_type;
  payload = record {
    event_id = event_id;
    execution_id = execution_id;
    event_type = event_type;
    created_at = created_at;
  };
  available_at = available_at;
  published_at = none;
  published_message_id = "";
  attempts = 0;
  next_attempt_at = none;
  claim_owner = "";
  claim_until = none;
  last_error = "";
}

-- INSERT INTO outbox_events: the new row has the next id; a duplicate event_id is refused.
unfoldable pub insert_event : OutboxEvent → Database → Result (Unit {0}) × Database
insert_event event db =
    if any (λ o. event_id_eq o.event_id event.event_id) db.outbox then (err database, db) else (
      ok tt,
      record db {
        outbox = record event { id = db.next_event_id } ∷ db.outbox;
        next_event_id = db.next_event_id + 1;
      },
    )

abbrev pub from_result : {A : Type 0} → Result A → Sql A
from_result (ok a) = pure a
from_result (err e) = raise e

unfoldable pub create_event : OutboxEvent → Sql (Unit {0})
create_event event = do result ← statement (insert_event event); from_result result
