-- ===== src/Service/Worker.antt =====
-- internal/service/stream_worker.go. The callback, the clock, the run token and what other sessions
-- commit are parameters of each message.
pub mod Settled
pub mod Persistence
pub mod Claiming
pub mod Acknowledgement
pub mod Loop
pub mod Quiet
pub mod Completion
pub mod Failing
pub mod Exhaustion
pub mod Delivered
use chrono_flow.Common.{
  leb, ◌==◌, if◌then◌else◌, pos_part, ltb_ℤ, pos, ℕ, ◌+◌, ◌-◌, ◌/◌, String, Bool, true, false, not,
  ◌||◌, Option, none, some, List, [], ◌∷◌, str_eq,
}
use chrono_flow.Effect.{◌>>=◌, ◌>>◌, pure, try, Error, message, Result, ok, err}
use chrono_flow.Config.{seconds, WorkerConfig}
use chrono_flow.Model.Timer.{Time, millisecond}
use chrono_flow.Model.Execution.{is_retry_wait, is_terminal, TimerExecution, CallbackSnapshot}
use chrono_flow.Database.{Sql, meanwhile, Database}
use chrono_flow.Repository.Executions.{
  claimed, claim, renewed, heartbeat, complete_success, complete_failure,
}
use chrono_flow.Repository.Schedule.{Json}
use chrono_flow.Service.Stream.Messages.{StreamMessage}
use chrono_flow.Service.Backoff.{add_duration, retry_backoff}

-- The status code, the body, and the error unless the callback has succeeded.
pub record CallbackResult : Type 0 where
  pub response_code : ℕ
  pub response_body : String
  pub error : Option Error

-- One tick of the heartbeat: its time, and what other sessions have committed since the last one.
pub record Tick : Type 0 where
  pub at : Time
  pub others : Database → Database

-- What the surroundings do while a message is processed. `ticks` are those before the callback has
-- ended.
pub record Surroundings : Type 0 where
  pub run_token : Option String
  pub started_at : Time
  pub after_claim : Database → Database
  pub ticks : List Tick
  pub execute : CallbackSnapshot → ℕ → CallbackResult
  pub before_result : Database → Database
  pub finished_at : Time

unfoldable pub is_retryable_callback_failure : ℕ → Bool
is_retryable_callback_failure response_code =
    response_code == 0
    || response_code == 408
    || response_code == 425
    || response_code == 429
    || leb 500 response_code

unfoldable pub is_malformed : StreamMessage → Bool
is_malformed msg = not (str_eq msg.decode_error "") || ltb_ℤ msg.execution_id (pos 1)

-- `err != nil || !updated`: no acknowledgement.
abbrev pub persisted : Result Bool → Bool
persisted (ok updated) = updated
persisted (err e) = false

abbrev pub failure_persisted : Result (Bool × Bool) → Bool
failure_persisted (ok (updated, retry_scheduled)) = updated
failure_persisted (err e) = false

-- An execution that is not to be run by this message any more.
abbrev pub is_settled : TimerExecution → Bool
is_settled e = is_terminal e || is_retry_wait e.status

-- `text_of` is the trimmed and truncated text of an error.
module _ (json : Json) (cfg : WorkerConfig) (consumer_id : String) (text_of : Error → String)
    (world : Surroundings) where
  -- The loop of heartbeat up to the end of the callback: whether the lease was lost.
  unfoldable pub heartbeat_loop : ℕ → String → List Tick → Sql Bool
  heartbeat_loop execution_id run_token [] = pure false
  heartbeat_loop execution_id run_token (tick ∷ ticks) = do
    meanwhile tick.others
    renewed ←
        try (heartbeat execution_id consumer_id run_token (tick.at + seconds cfg.lease_ttl_seconds))
    if persisted renewed then heartbeat_loop execution_id run_token ticks else pure true

  -- Whether the message is acknowledged.
  unfoldable pub finish_failure : TimerExecution → String → ℕ → String → Error → Bool → Sql Bool
  finish_failure execution run_token response_code response_body failure retryable = do
    let retry_at =
        add_duration world.finished_at
          (retry_backoff cfg.retry_base_seconds cfg.retry_max_seconds execution.attempt)
    outcome ← try (
        complete_failure execution consumer_id run_token world.finished_at response_code
          response_body (text_of failure) ((world.finished_at - world.started_at) / millisecond)
          retry_at retryable)
    pure (failure_persisted outcome)

  unfoldable pub finish_success : TimerExecution → String → ℕ → String → Sql Bool
  finish_success execution run_token response_code response_body = do
    outcome ← try (
        complete_success execution.id consumer_id run_token world.finished_at response_code
          response_body ((world.finished_at - world.started_at) / millisecond))
    pure (persisted outcome)

  -- What follows the callback.
  unfoldable pub finish : TimerExecution → String → CallbackResult → Sql Bool
  finish execution run_token result = elim result.error [
    | some failure ↦
        finish_failure execution run_token result.response_code result.response_body failure
          (is_retryable_callback_failure result.response_code)
    | none ↦ finish_success execution run_token result.response_code result.response_body
  ]

  -- What follows a claim that has won.
  unfoldable pub run_claimed : TimerExecution → String → Sql Bool
  run_claimed execution run_token = elim (json.decode_snapshot execution.request_snapshot) [
    | none ↦ finish_failure execution run_token 0 "" (message "decode callback snapshot") false
    | some snapshot ↦ do
      lease_lost ← heartbeat_loop execution.id run_token world.ticks
      meanwhile world.before_result
      if lease_lost
          then pure false
          else finish execution run_token (world.execute snapshot execution.id)
  ]

  unfoldable pub after_claim : String → Result (Option TimerExecution × Bool) → Sql Bool
  after_claim run_token (err e) = pure false
  after_claim run_token (ok (none, claimed)) = pure true
  after_claim run_token (ok (some execution, true)) = run_claimed execution run_token
  after_claim run_token (ok (some execution, false)) = pure (is_settled execution)

  unfoldable pub process_with : ℕ → String → Sql Bool
  process_with execution_id run_token = do
    outcome ← try (
        claim world.after_claim execution_id consumer_id run_token world.started_at
          (seconds cfg.lease_ttl_seconds))
    after_claim run_token outcome

  -- One message: whether it is acknowledged. A failing XACK is logged only.
  unfoldable pub process : StreamMessage → Sql Bool
  process msg = if is_malformed msg then pure true else elim world.run_token [
    | none ↦ pure false
    | some run_token ↦ process_with (pos_part msg.execution_id) run_token
  ]
