-- ===== src/Repository/Recovery.antt =====
-- internal/repository/recovery_repo.go
pub mod Rows
pub mod Loop
pub mod Complete
use chrono_flow.Repository.Events.{new_execution_outbox_event, create_event}
use chrono_flow.Common.{
  ltb, leb, ◌==◌, if◌then◌else◌, is_before, is_due, is_null, length, take, any, keep, ℤ, ℕ, ◌+◌,
  Bool, not, ◌&&◌, ◌||◌, none, some, List, str_eq,
}
use chrono_flow.Effect.{◌>>=◌, ◌>>◌, pure, wrap_error, for_each}
use chrono_flow.Model.Timer.{Time}
use chrono_flow.Model.Execution.{
  is_pending, is_running, is_retry_wait, is_terminal, TimerExecution, retry_wait, failed,
}
use chrono_flow.Model.Outbox.{OutboxEvent, execution_recovery, recovery_id}
use chrono_flow.Database.{order_by, limit, Sql, statement, query, transaction, Database}
use chrono_flow.Repository.Executions.{update_executions}

pub record RecoveryResult : Type 0 where
  pub reenqueued : ℕ
  pub expired_leases : ℕ
  pub final_failures : ℕ

pub record CleanupResult : Type 0 where
  pub outbox_events : ℕ
  pub executions : ℕ

-- "(last_enqueued_at IS NULL OR last_enqueued_at < ?)"
abbrev pub is_stale : Time → TimerExecution → Bool
is_stale stale_before e = is_null e.last_enqueued_at || is_before e.last_enqueued_at stale_before

-- The WHERE of RecoverBatch.
unfoldable pub is_stuck : Time → Time → TimerExecution → Bool
is_stuck now stale_before e =
    (is_pending e.status && leb e.scheduled_at now && is_stale stale_before e)
    || (is_retry_wait e.status && is_due e.next_attempt_at now && is_stale stale_before e)
    || (is_running e.status && is_before e.lease_until now)

-- "scheduled_at ASC, id ASC"
abbrev pub by_schedule : TimerExecution → TimerExecution → Bool
by_schedule a b =
    ltb a.scheduled_at b.scheduled_at || (a.scheduled_at == b.scheduled_at && leb a.id b.id)

unfoldable pub select_stuck : (ℕ → Bool) → Time → Time → ℤ → Database → List TimerExecution
select_stuck unlocked now stale_before batch db =
    limit batch (
      order_by by_schedule (keep (λ e. unlocked e.id && is_stuck now stale_before e) db.executions))

-- "id = ? AND status = ? AND run_token = ?"
unfoldable pub is_expired_row : TimerExecution → TimerExecution → Bool
is_expired_row execution e =
    e.id == execution.id && is_running e.status && str_eq e.run_token execution.run_token

unfoldable pub given_up : Time → TimerExecution → TimerExecution
given_up now e = record e {
  status = failed;
  finished_at = some now;
  error_message = "execution lease expired after reaching the maximum number of attempts";
  lease_owner = "";
  lease_until = none;
  run_token = "";
}

unfoldable pub put_back : Time → TimerExecution → TimerExecution
put_back now e = record e {
  status = retry_wait;
  next_attempt_at = some now;
  lease_owner = "";
  lease_until = none;
  run_token = "";
  error_message = "execution lease expired and was re-enqueued by the reconciler";
}

unfoldable pub enqueued_at : Time → TimerExecution → TimerExecution
enqueued_at now e = record e { last_enqueued_at = some now }

unfoldable pub has_id : ℕ → TimerExecution → Bool
has_id id e = e.id == id

-- The end of the loop's body: a recovery event, and the time of it.
unfoldable pub reenqueue : Time → RecoveryResult → TimerExecution → Sql RecoveryResult
reenqueue now result execution = do
  create_event (
      new_execution_outbox_event execution.id (recovery_id execution.id now) execution_recovery now
        now)
  statement (update_executions (has_id execution.id) (enqueued_at now))
  pure (record result { reenqueued = result.reenqueued + 1 })

-- One round of the loop.
unfoldable pub recover_one : Time → RecoveryResult → TimerExecution → Sql RecoveryResult
recover_one now result execution =
    if is_running execution.status
    then (let expired = record result { expired_leases = result.expired_leases + 1 } in
        if leb execution.max_attempts execution.attempt
        then (do
          affected ← statement (update_executions (is_expired_row execution) (given_up now))
          pure (
              if affected == 1
              then record expired { final_failures = expired.final_failures + 1 }
              else expired))
        else (do
          statement (update_executions (is_expired_row execution) (put_back now))
          reenqueue now expired execution))
    else reenqueue now result execution

unfoldable pub recover_batch : (ℕ → Bool) → Time → Time → ℤ → Sql RecoveryResult
recover_batch unlocked now stale_before batch = wrap_error "recover execution batch" (
    transaction (do
      executions ← query (select_stuck unlocked now stale_before batch)
      for_each (recover_one now) (record { reenqueued = 0; expired_leases = 0; final_failures = 0 })
          executions))

-- DELETE … WHERE … ORDER BY id LIMIT ?
abbrev pub by_event_id : OutboxEvent → OutboxEvent → Bool
by_event_id a b = leb a.id b.id

abbrev pub by_execution_id : TimerExecution → TimerExecution → Bool
by_execution_id a b = leb a.id b.id

unfoldable pub is_old_event : Time → OutboxEvent → Bool
is_old_event outbox_before o = is_before o.published_at outbox_before

unfoldable pub delete_events : Time → ℕ → Database → ℕ × Database
delete_events outbox_before batch db =
    let victims = take batch (order_by by_event_id (keep (is_old_event outbox_before) db.outbox)) in
    (
      length victims,
      record db { outbox = keep (λ o. not (any (λ v. v.id == o.id) victims)) db.outbox },
    )

unfoldable pub is_old_execution : Time → List OutboxEvent → TimerExecution → Bool
is_old_execution execution_before outbox e =
    is_terminal e
    && is_before e.finished_at execution_before
    && not (any (λ o. o.aggregate_id == e.id) outbox)

unfoldable pub delete_executions : Time → ℕ → Database → ℕ × Database
delete_executions execution_before batch db =
    let victims = take batch (
      order_by by_execution_id
        (keep (is_old_execution execution_before db.outbox) db.executions)) in
    (
      length victims,
      record db { executions = keep (λ e. not (any (λ v. v.id == e.id) victims)) db.executions },
    )

unfoldable pub cleanup : Time → Time → ℕ → Sql CleanupResult
cleanup outbox_before execution_before batch = wrap_error "clean up historical data" (
    transaction (do
      outbox_events ← statement (delete_events outbox_before batch)
      executions ← statement (delete_executions execution_before batch)
      pure (record { outbox_events = outbox_events; executions = executions })))
