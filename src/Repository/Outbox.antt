-- ===== src/Repository/Outbox.antt =====
-- internal/repository/outbox_repo.go
pub mod Reserved
pub mod Batches
pub mod Coherence
pub mod Published
use chrono_flow.Common.{
  leb, ◌==◌, is_before, is_due, is_null, length, any, keep, ℤ, ℕ, ◌+◌, String, Bool, ◌&&◌, ◌||◌,
  none, some, List, [], ◌∷◌, map, str_eq,
}
use chrono_flow.Effect.{◌>>=◌, ◌>>◌, pure, wrap_error, require, message}
use chrono_flow.Model.Timer.{Time}
use chrono_flow.Model.Outbox.{event_id_eq, OutboxEvent, EventId}
use chrono_flow.Database.{
  update_where, count_where, order_by, limit, Sql, statement, query, transaction, Database,
}

unfoldable pub update_events :
    (OutboxEvent → Bool) → (OutboxEvent → OutboxEvent) → Database → ℕ × Database
update_events p f db = (count_where p db.outbox, record db { outbox = update_where p f db.outbox })

-- The WHERE of the SELECT in ClaimBatch.
unfoldable pub is_publishable : Time → OutboxEvent → Bool
is_publishable now o =
    is_null o.published_at
    && leb o.available_at now
    && (is_null o.next_attempt_at || is_due o.next_attempt_at now)
    && (is_null o.claim_until || is_before o.claim_until now || str_eq o.claim_owner "")

abbrev pub by_id : OutboxEvent → OutboxEvent → Bool
by_id a b = leb a.id b.id

-- FOR UPDATE SKIP LOCKED passes over the rows whose lock another transaction holds: `unlocked` says
-- of each id whether its lock was free.
unfoldable pub select_publishable : (ℕ → Bool) → Time → ℤ → Database → List OutboxEvent
select_publishable unlocked now batch db =
    limit batch (order_by by_id (keep (λ o. unlocked o.id && is_publishable now o) db.outbox))

unfoldable pub with_claim : String → Time → OutboxEvent → OutboxEvent
with_claim owner claim_until o = record o { claim_owner = owner; claim_until = some claim_until }

-- "id IN ?"
unfoldable pub is_among : List OutboxEvent → OutboxEvent → Bool
is_among events o = any (λ e. e.id == o.id) events

-- The claim of a batch that is not empty.
unfoldable pub claim_events : String → Time → List OutboxEvent → Sql (List OutboxEvent)
claim_events owner claim_until events = do
  affected ←
      wrap_error "update outbox claim"
        (statement (update_events (is_among events) (with_claim owner claim_until)))
  require (affected == length events) (message "outbox claim count mismatch")
  pure (map (with_claim owner claim_until) events)

abbrev pub claim_unless_empty : String → Time → List OutboxEvent → Sql (List OutboxEvent)
claim_unless_empty owner claim_until [] = pure []
claim_unless_empty owner claim_until (e ∷ es) = claim_events owner claim_until (e ∷ es)

unfoldable pub claim_batch : (ℕ → Bool) → String → Time → ℤ → ℕ → Sql (List OutboxEvent)
claim_batch unlocked owner now batch claim_ttl = transaction (do
  events ← wrap_error "claim outbox events" (query (select_publishable unlocked now batch))
  claim_unless_empty owner (now + claim_ttl) events)

-- "event_id = ? AND claim_owner = ? AND published_at IS NULL"
unfoldable pub is_owned : EventId → String → OutboxEvent → Bool
is_owned event_id owner o =
    event_id_eq o.event_id event_id && str_eq o.claim_owner owner && is_null o.published_at

unfoldable pub published : Time → String → OutboxEvent → OutboxEvent
published published_at message_id o = record o {
  published_at = some published_at;
  published_message_id = message_id;
  attempts = o.attempts + 1;
  claim_owner = "";
  claim_until = none;
  last_error = "";
}

unfoldable pub mark_published : EventId → String → String → Time → Sql (Unit {0})
mark_published event_id owner message_id published_at = do
  affected ←
      wrap_error "mark outbox event as published"
        (statement (update_events (is_owned event_id owner) (published published_at message_id)))
  require (affected == 1) (message "lost outbox publication ownership")

unfoldable pub attempt_failed : String → Time → OutboxEvent → OutboxEvent
attempt_failed last_error next_attempt_at o = record o {
  attempts = o.attempts + 1;
  next_attempt_at = some next_attempt_at;
  claim_owner = "";
  claim_until = none;
  last_error = last_error;
}

unfoldable pub mark_failed : EventId → String → String → Time → Sql (Unit {0})
mark_failed event_id owner last_error next_attempt_at = do
  affected ← wrap_error "record outbox publication failure" (
      statement
        (update_events (is_owned event_id owner) (attempt_failed last_error next_attempt_at)))
  require (affected == 1) (message "lost outbox failure ownership")

unfoldable pub count_unpublished : Sql ℕ
count_unpublished =
    wrap_error "count unpublished outbox events"
      (query (λ db. count_where (λ o. is_null o.published_at) db.outbox))
