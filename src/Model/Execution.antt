-- ===== src/Model/Execution.antt =====
-- internal/model/timer_execution.go. The columns created_at and updated_at, and the joined
-- timer_name, are left out.
use chrono_flow.Common.{ℕ, String, Bool, true, false, Option, List}
use chrono_flow.Model.Timer.{Time}

pub data ExecutionStatus : Type 0 where
  pending running retry_wait success failed cancelled : ExecutionStatus

abbrev pub is_pending : ExecutionStatus → Bool
is_pending pending = true
is_pending _ = false

abbrev pub is_running : ExecutionStatus → Bool
is_running running = true
is_running _ = false

abbrev pub is_retry_wait : ExecutionStatus → Bool
is_retry_wait retry_wait = true
is_retry_wait _ = false

abbrev pub is_terminal_status : ExecutionStatus → Bool
is_terminal_status success = true
is_terminal_status failed = true
is_terminal_status cancelled = true
is_terminal_status _ = false

abbrev pub execution_status_eq : ExecutionStatus → ExecutionStatus → Bool
execution_status_eq pending s = is_pending s
execution_status_eq running s = is_running s
execution_status_eq retry_wait s = is_retry_wait s
execution_status_eq success success = true
execution_status_eq failed failed = true
execution_status_eq cancelled cancelled = true
execution_status_eq _ _ = false

pub record TimerExecution : Type 0 where
  pub id : ℕ
  pub timer_id : ℕ
  pub scheduled_at : Time
  pub status : ExecutionStatus
  pub attempt : ℕ
  pub max_attempts : ℕ
  pub next_attempt_at : Option Time
  pub lease_owner : String
  pub lease_until : Option Time
  pub run_token : String
  pub last_enqueued_at : Option Time
  pub request_snapshot : String
  pub started_at : Option Time
  pub finished_at : Option Time
  pub response_code : ℕ
  pub response_body : String
  pub error_message : String
  pub duration_ms : ℕ

abbrev pub is_terminal : TimerExecution → Bool
is_terminal e = is_terminal_status e.status

pub record CallbackSnapshot : Type 0 where
  pub url : String
  pub method : String
  pub body : String
  pub headers : List (String × String)
