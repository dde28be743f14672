-- ===== src/Repository/Timers.antt =====
-- internal/repository/timer_definition_repo.go
pub mod Listing
use chrono_flow.Common.{◌==◌, ℕ, ◌+◌, Bool, not, ◌&&◌, Option, none, ◌∷◌}
use chrono_flow.Effect.{◌>>=◌, wrap_error, require, message}
use chrono_flow.Model.Timer.{Time, status_eq, TimerDefinition, TimerStatus, deleted}
use chrono_flow.Database.{count_where, find_where, Sql, statement, query, Database}
use chrono_flow.Repository.Schedule.{update_timers}

-- INSERT INTO timer_definitions: the new row has the next id, which gorm writes back.
unfoldable pub insert_timer : TimerDefinition → Database → TimerDefinition × Database
insert_timer def db =
    let row = record def { id = db.next_timer_id } in
    (row, record db { timers = row ∷ db.timers; next_timer_id = db.next_timer_id + 1 })

unfoldable pub create_definition : TimerDefinition → Sql TimerDefinition
create_definition def = wrap_error "create timer definition" (statement (insert_timer def))

-- "id = ? AND status != ?"
unfoldable pub is_visible : ℕ → TimerDefinition → Bool
is_visible id t = t.id == id && not (status_eq t.status deleted)

-- none is `return nil, nil`.
unfoldable pub get_definition : ℕ → Sql (Option TimerDefinition)
get_definition id =
    wrap_error "get timer definition" (query (λ db. find_where (is_visible id) db.timers))

-- The SET of Delete and UpdateScheduleState.
unfoldable pub rescheduled : TimerStatus → Option Time → TimerDefinition → TimerDefinition
rescheduled status next_fire_at t = record t {
  status = status;
  next_fire_at = next_fire_at;
  version = t.version + 1;
}

unfoldable pub delete_definition : ℕ → Sql (Unit {0})
delete_definition id = do
  affected ←
      wrap_error "delete timer definition"
        (statement (update_timers (is_visible id) (rescheduled deleted none)))
  require (not (affected == 0)) (message "timer definition does not exist or is deleted")

-- "id = ? AND status = ?"
unfoldable pub has_status : ℕ → TimerStatus → TimerDefinition → Bool
has_status id status t = t.id == id && status_eq t.status status

unfoldable pub update_schedule_state : ℕ → TimerStatus → TimerStatus → Option Time → Sql (Unit {0})
update_schedule_state id from to next_fire_at = do
  affected ←
      wrap_error "update timer schedule state"
        (statement (update_timers (has_status id from) (rescheduled to next_fire_at)))
  require (not (affected == 0)) (message "timer state changed or timer does not exist")

-- The rows of SELECT status, count(*) … GROUP BY status, as the map that is built from them.
unfoldable pub count_timers_by_status : Sql (TimerStatus → ℕ)
count_timers_by_status =
    wrap_error "count timer statuses"
      (query (λ db status. count_where (λ t. status_eq t.status status) db.timers))
