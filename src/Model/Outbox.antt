-- ===== src/Model/Outbox.antt =====
-- internal/model/outbox_event.go. An event id is kept as what fmt.Sprintf prints into it; the
-- payload, which repeats the event id, the execution, the type and a time, as those values.
use chrono_flow.Common.{◌==◌, ℕ, String, Bool, false, ◌&&◌, Option}
use chrono_flow.Model.Timer.{Time}

pub data EventType : Type 0 where
  execution_ready execution_retry execution_recovery : EventType

-- "execution-ready-%d", "execution-retry-%d-%d", "execution-recovery-%d-%d"
pub data EventId : Type 0 where
  ready_id : ℕ → EventId
  retry_id : ℕ → ℕ → EventId
  recovery_id : ℕ → ℕ → EventId

abbrev pub event_id_eq : EventId → EventId → Bool
event_id_eq (ready_id e) (ready_id f) = e == f
event_id_eq (retry_id e a) (retry_id f b) = e == f && a == b
event_id_eq (recovery_id e a) (recovery_id f b) = e == f && a == b
event_id_eq _ _ = false

pub record Payload : Type 0 where
  pub event_id : EventId
  pub execution_id : ℕ
  pub event_type : EventType
  pub created_at : Time

-- aggregate_type is always "timer_execution".
pub record OutboxEvent : Type 0 where
  pub id : ℕ
  pub event_id : EventId
  pub aggregate_id : ℕ
  pub event_type : EventType
  pub payload : Payload
  pub available_at : Time
  pub published_at : Option Time
  pub published_message_id : String
  pub attempts : ℕ
  pub next_attempt_at : Option Time
  pub claim_owner : String
  pub claim_until : Option Time
  pub last_error : String
