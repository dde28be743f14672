-- ===== src/Repository/Executions.antt =====
-- internal/repository/timer_execution_repo.go: the statements by which a worker moves an execution.
pub mod Consistency
pub mod Fencing
pub mod Stale
pub mod Takeover
pub mod Available
pub mod OneRow
pub mod Wins
use chrono_flow.Repository.Events.{new_execution_outbox_event, create_event}
use chrono_flow.Common.{
  ltb, leb, ◌==◌, if◌then◌else◌, is_before, is_due, ℕ, ◌+◌, String, Bool, true, false, not, ◌&&◌,
  ◌||◌, Option, none, some, str_eq,
}
use chrono_flow.Effect.{◌>>=◌, ◌>>◌, pure, wrap_error}
use chrono_flow.Model.Timer.{Time}
use chrono_flow.Model.Execution.{
  is_pending, is_running, is_retry_wait, execution_status_eq, TimerExecution, ExecutionStatus,
  running, retry_wait, success, failed,
}
use chrono_flow.Model.Outbox.{execution_retry, retry_id}
use chrono_flow.Database.{
  update_where, count_where, find_where, Sql, statement, query, transaction, meanwhile, Database,
}

-- UPDATE timer_executions SET … WHERE …, with its RowsAffected.
unfoldable pub update_executions :
    (TimerExecution → Bool) → (TimerExecution → TimerExecution) → Database → ℕ × Database
update_executions p f db =
    (count_where p db.executions, record db { executions = update_where p f db.executions })

-- The unique key (timer_id, scheduled_at).
unfoldable pub same_slot : ℕ → Time → TimerExecution → Bool
same_slot timer_id scheduled_at e = e.timer_id == timer_id && e.scheduled_at == scheduled_at

-- The WHERE of Claim.
unfoldable pub is_claimable : Time → TimerExecution → Bool
is_claimable now e =
    (is_pending e.status && leb e.scheduled_at now)
    || (is_retry_wait e.status && is_due e.next_attempt_at now)
    || (is_running e.status && is_before e.lease_until now)

unfoldable pub can_claim : ℕ → Time → TimerExecution → Bool
unfolding is_claimable
can_claim execution_id now e = e.id == execution_id && is_claimable now e

-- The SET of Claim.
unfoldable pub claimed : String → String → Time → Time → TimerExecution → TimerExecution
claimed owner run_token now lease_until e = record e {
  status = running;
  attempt = e.attempt + 1;
  lease_owner = owner;
  lease_until = some lease_until;
  run_token = run_token;
  started_at = some now;
  finished_at = none;
  response_code = 0;
  response_body = "";
  error_message = "";
  duration_ms = 0;
}

-- `return nil, false, nil` for a missing row.
abbrev pub found_and : Option TimerExecution → Bool → Option TimerExecution × Bool
found_and none won = (none, false)
found_and (some e) won = (some e, won)

-- `others` is what other sessions commit between the UPDATE and the SELECT.
unfoldable pub claim :
    (Database → Database) → ℕ → String → String → Time → ℕ → Sql (Option TimerExecution × Bool)
claim others execution_id owner run_token now lease_ttl = do
  affected ← wrap_error "claim execution" (
      statement (
        update_executions (can_claim execution_id now)
          (claimed owner run_token now (now + lease_ttl))))
  meanwhile others
  execution ←
      wrap_error "read execution"
        (query (λ db. find_where (λ e. e.id == execution_id) db.executions))
  pure (found_and execution (affected == 1))

-- "id = ? AND status = ? AND lease_owner = ? AND run_token = ?"
unfoldable pub is_held : ℕ → String → String → TimerExecution → Bool
is_held execution_id owner run_token e =
    e.id == execution_id
    && is_running e.status
    && str_eq e.lease_owner owner
    && str_eq e.run_token run_token

unfoldable pub renewed : Time → TimerExecution → TimerExecution
renewed lease_until e = record e { lease_until = some lease_until }

unfoldable pub heartbeat : ℕ → String → String → Time → Sql Bool
heartbeat execution_id owner run_token lease_until = do
  affected ←
      wrap_error "renew execution lease"
        (statement (update_executions (is_held execution_id owner run_token) (renewed lease_until)))
  pure (affected == 1)

unfoldable pub succeeded : Time → ℕ → String → ℕ → TimerExecution → TimerExecution
succeeded finished_at response_code response_body duration_ms e = record e {
  status = success;
  finished_at = some finished_at;
  response_code = response_code;
  response_body = response_body;
  error_message = "";
  duration_ms = duration_ms;
  lease_owner = "";
  lease_until = none;
  run_token = "";
  next_attempt_at = none;
}

unfoldable pub complete_success : ℕ → String → String → Time → ℕ → String → ℕ → Sql Bool
complete_success execution_id owner run_token finished_at response_code response_body duration_ms =
    do
      affected ← wrap_error "persist successful execution state" (
          statement (
            update_executions (is_held execution_id owner run_token)
              (succeeded finished_at response_code response_body duration_ms)))
      pure (affected == 1)

-- The result columns that CompleteFailure writes, and its two ways to go on.
unfoldable pub failed_attempt :
    Time → ℕ → String → String → ℕ → Option Time → TimerExecution → TimerExecution
failed_attempt finished_at response_code response_body error_message duration_ms none e = record e {
  finished_at = some finished_at;
  response_code = response_code;
  response_body = response_body;
  error_message = error_message;
  duration_ms = duration_ms;
  lease_owner = "";
  lease_until = none;
  run_token = "";
  status = failed;
  next_attempt_at = none;
}
failed_attempt finished_at response_code response_body error_message duration_ms (some retry_at) e =
    record e {
      finished_at = some finished_at;
      response_code = response_code;
      response_body = response_body;
      error_message = error_message;
      duration_ms = duration_ms;
      lease_owner = "";
      lease_until = none;
      run_token = "";
      status = retry_wait;
      next_attempt_at = some retry_at;
      last_enqueued_at = some retry_at;
    }

abbrev pub retry_time : Bool → Time → Option Time
retry_time true retry_at = some retry_at
retry_time false retry_at = none

unfoldable pub complete_failure :
    TimerExecution
    → String
    → String
    → Time
    → ℕ
    → String
    → String
    → ℕ
    → Time
    → Bool
    → Sql (Bool × Bool)
complete_failure execution owner run_token finished_at code body error duration_ms retry_at
      retryable =
    do
      let retry_scheduled = retryable && ltb execution.attempt execution.max_attempts
      updated ← wrap_error "persist failed execution state" (
          transaction (do
            affected ← statement (
                update_executions (is_held execution.id owner run_token) (
                  failed_attempt finished_at code body error duration_ms
                    (retry_time retry_scheduled retry_at)))
            if not (affected == 1)
                then pure false
                else if not retry_scheduled
                then pure true
                else do
                  create_event (
                      new_execution_outbox_event execution.id
                        (retry_id execution.id execution.attempt) execution_retry retry_at
                        finished_at)
                  pure true))
      pure (updated, updated && retry_scheduled)

-- The rows of SELECT status, count(*) … GROUP BY status, as the map that is built from them.
unfoldable pub count_by_status : Sql (ExecutionStatus → ℕ)
count_by_status =
    wrap_error "count execution statuses"
      (query (λ db status. count_where (λ e. execution_status_eq e.status status) db.executions))
