-- ===== src/Repository/Schedule.antt =====
-- internal/repository/scheduler_repo.go: due timers become executions and outbox events in one
-- transaction.
pub mod Announced
pub mod Batch
use chrono_flow.Common.{
  ltb, leb, ◌==◌, if◌then◌else◌, is_due, any, keep, ℤ, ℕ, ◌+◌, String, Bool, ◌&&◌, ◌||◌, Option,
  none, some, List, [], ◌∷◌, str_eq,
}
use chrono_flow.Effect.{◌>>=◌, ◌>>◌, pure, wrap_error, or_raise, require, for_each, message, Result}
use chrono_flow.Model.Timer.{Time, status_eq, TimerDefinition, active, empty}
use chrono_flow.Model.Execution.{TimerExecution, CallbackSnapshot, pending}
use chrono_flow.Model.Outbox.{execution_ready, ready_id}
use chrono_flow.Database.{
  update_where, count_where, order_by, limit, Sql, statement, query, transaction, Database,
}
use chrono_flow.Repository.Executions.{same_slot, claim}
use chrono_flow.Repository.Events.{new_execution_outbox_event, from_result, create_event}

pub record ScheduleBatchResult : Type 0 where
  pub timers : ℕ
  pub executions : ℕ
  pub duplicates : ℕ

-- Occurrences and the new next_fire_at, where none is Go's zero time, or the error of the cron
-- expression or of the policy.
abbrev pub DueTimerResolver : Type 0
DueTimerResolver = TimerDefinition → Time → Result (List Time × Option Time)

-- "status = ? AND next_fire_at IS NOT NULL AND next_fire_at <= ?"
unfoldable pub is_due_timer : Time → TimerDefinition → Bool
is_due_timer now t = status_eq t.status active && is_due t.next_fire_at now

abbrev pub fire_time : TimerDefinition → Time
fire_time t = elim t.next_fire_at [ none ↦ 0 | some at ↦ at ]

-- "next_fire_at ASC, id ASC"
abbrev pub by_fire_time : TimerDefinition → TimerDefinition → Bool
by_fire_time a b = ltb (fire_time a) (fire_time b) || (fire_time a == fire_time b && leb a.id b.id)

unfoldable pub select_due : (ℕ → Bool) → Time → ℤ → Database → List TimerDefinition
select_due unlocked now batch db =
    limit batch (order_by by_fire_time (keep (λ t. unlocked t.id && is_due_timer now t) db.timers))

unfoldable pub new_execution : ℕ → Time → Time → String → TimerExecution
new_execution timer_id scheduled_at now request_snapshot = record {
  id = 0;
  timer_id = timer_id;
  scheduled_at = scheduled_at;
  status = pending;
  attempt = 0;
  max_attempts = 3;
  next_attempt_at = none;
  lease_owner = "";
  lease_until = none;
  run_token = "";
  last_enqueued_at = some now;
  request_snapshot = request_snapshot;
  started_at = none;
  finished_at = none;
  response_code = 0;
  response_body = "";
  error_message = "";
  duration_ms = 0;
}

-- INSERT … ON CONFLICT DO NOTHING: the id of the new row, or none where no row was affected.
unfoldable pub insert_execution : TimerExecution → Database → Option ℕ × Database
insert_execution execution db =
    if any (same_slot execution.timer_id execution.scheduled_at) db.executions
    then (none, db)
    else (
      some db.next_execution_id,
      record db {
        executions = record execution { id = db.next_execution_id } ∷ db.executions;
        next_execution_id = db.next_execution_id + 1;
      },
    )

-- What follows an INSERT: a duplicate is counted, a new execution gets its event.
unfoldable pub announce : Time → ScheduleBatchResult → Option ℕ → Sql ScheduleBatchResult
announce now result none = pure (record result { duplicates = result.duplicates + 1 })
announce now result (some execution_id) = do
  wrap_error "create outbox event" (
      create_event
        (new_execution_outbox_event execution_id (ready_id execution_id) execution_ready now now))
  pure (record result { executions = result.executions + 1 })

-- One round of the loop over the occurrences.
unfoldable pub schedule_occurrence :
    ℕ → String → Time → ScheduleBatchResult → Time → Sql ScheduleBatchResult
schedule_occurrence timer_id request_snapshot now result scheduled_at = do
  created ←
      wrap_error "create execution"
        (statement (insert_execution (new_execution timer_id scheduled_at now request_snapshot)))
  announce now result created

unfoldable pub update_timers :
    (TimerDefinition → Bool) → (TimerDefinition → TimerDefinition) → Database → ℕ × Database
update_timers p f db = (count_where p db.timers, record db { timers = update_where p f db.timers })

-- "id = ? AND version = ?"
unfoldable pub has_version : ℕ → ℕ → TimerDefinition → Bool
has_version id version t = t.id == id && t.version == version

unfoldable pub advanced : Time → TimerDefinition → TimerDefinition
advanced next_fire_at t = record t { next_fire_at = some next_fire_at; version = t.version + 1 }

abbrev pub nothing_scheduled : ScheduleBatchResult
nothing_scheduled = record { timers = 0; executions = 0; duplicates = 0 }

-- encoding/json at the types that the program reads and writes; none is an error.
pub record Json : Type 0 where
  pub decode_headers : String → Option (List (String × String))
  pub encode_headers : List (String × String) → Option String
  pub decode_snapshot : String → Option CallbackSnapshot
  pub encode_snapshot : CallbackSnapshot → Option String

module _ (json : Json) where
  abbrev decoded_headers : String → Option (List (String × String))
  decoded_headers text = if str_eq text "" then some [] else json.decode_headers text

  unfoldable pub build_request_snapshot : TimerDefinition → Option String
  build_request_snapshot definition = elim (decoded_headers definition.callback_headers) [
    | none ↦ none
    | some headers ↦ json.encode_snapshot (record {
      url = definition.callback_url;
      method = definition.callback_method;
      body = definition.callback_body;
      headers = headers;
    })
  ]

  -- One round of the loop over the due timers, once the resolver has answered.
  unfoldable pub schedule_resolved :
      Time
      → ScheduleBatchResult
      → TimerDefinition
      → List Time
      → Option Time
      → Sql ScheduleBatchResult
  schedule_resolved now result definition occurrences next_fire_at = do
    next ← or_raise next_fire_at (message "timer has an empty next_fire_at")
    request_snapshot ←
        or_raise (build_request_snapshot definition) (message "build request snapshot")
    counted ← for_each (schedule_occurrence definition.id request_snapshot now) result occurrences
    affected ←
        wrap_error "advance next_fire_at"
          (statement (update_timers (has_version definition.id definition.version) (advanced next)))
    require (affected == 1) (message "next_fire_at version conflict")
    pure (record counted { timers = counted.timers + 1 })

  unfoldable pub schedule_timer :
      DueTimerResolver → Time → ScheduleBatchResult → TimerDefinition → Sql ScheduleBatchResult
  schedule_timer resolve now result definition = do
    resolved ← wrap_error "resolve occurrences for timer" (from_result (resolve definition now))
    schedule_resolved now result definition resolved.0 resolved.1

  unfoldable pub schedule_due_batch :
      (ℕ → Bool) → Time → ℤ → DueTimerResolver → Sql ScheduleBatchResult
  schedule_due_batch unlocked now batch resolve = transaction (do
    timers ← wrap_error "claim due timers" (query (select_due unlocked now batch))
    for_each (schedule_timer resolve now) nothing_scheduled timers)
