-- ===== src/Config.antt =====
-- internal/config/config.go: the sections of the configuration that the roles read, as integers.
pub mod Bounds
pub mod Idempotence
pub mod Loading
use chrono_flow.Common.{
  ◌==◌, if◌then◌else◌, pos_part, ltb_ℤ, leb_ℤ, scale64, ℤ, pos, negsuc, ℕ, suc, ◌-◌, ◌*◌, ◌/◌,
  String, Bool, ◌||◌, List, [], ◌∷◌, str_eq,
}
use chrono_flow.Model.Timer.{second}

pub record SchedulerConfig : Type 0 where
  pub poll_interval_ms : ℤ
  pub batch_size : ℤ
  pub misfire_grace_seconds : ℤ
  pub default_max_catch_up : ℤ

pub record OutboxConfig : Type 0 where
  pub poll_interval_ms : ℤ
  pub batch_size : ℤ
  pub claim_ttl_seconds : ℤ
  pub max_backoff_seconds : ℤ
  pub stream : String
  pub consumer_group : String
  pub stream_max_len : ℤ

pub record WorkerConfig : Type 0 where
  pub pool_size : ℤ
  pub read_count : ℤ
  pub read_block_ms : ℤ
  pub lease_ttl_seconds : ℤ
  pub heartbeat_seconds : ℤ
  pub reclaim_idle_seconds : ℤ
  pub reclaim_interval_seconds : ℤ
  pub http_timeout_seconds : ℤ
  pub max_response_bytes : ℤ
  pub retry_base_seconds : ℤ
  pub retry_max_seconds : ℤ

pub record RecoveryConfig : Type 0 where
  pub enabled : Bool
  pub scan_interval_seconds : ℤ
  pub batch_size : ℤ
  pub pending_stale_seconds : ℤ
  pub cleanup_interval_minutes : ℤ
  pub outbox_retention_days : ℤ
  pub execution_retention_days : ℤ
  pub stream_retention_hours : ℤ

pub record SecurityConfig : Type 0 where
  pub api_key : String
  pub allowed_origins : List String
  pub allow_private_callbacks : Bool
  pub max_request_bytes : ℤ

-- `time.Duration(n) * time.Second` of a setting that loading the configuration has made positive.
abbrev pub seconds : ℤ → ℕ
seconds n = pos_part n * second

unfoldable pub normalize_scheduler_config : SchedulerConfig → SchedulerConfig
normalize_scheduler_config cfg = record {
  poll_interval_ms = if ltb_ℤ cfg.poll_interval_ms (pos 10) then pos 500 else cfg.poll_interval_ms;
  batch_size = if ltb_ℤ cfg.batch_size (pos 1) then pos 100 else cfg.batch_size;
  misfire_grace_seconds =
      if ltb_ℤ cfg.misfire_grace_seconds (pos 0) then pos 0 else cfg.misfire_grace_seconds;
  default_max_catch_up =
      if ltb_ℤ cfg.default_max_catch_up (pos 1) then pos 10 else cfg.default_max_catch_up;
}

unfoldable pub normalize_outbox_config : OutboxConfig → OutboxConfig
normalize_outbox_config cfg = record {
  poll_interval_ms = if ltb_ℤ cfg.poll_interval_ms (pos 10) then pos 200 else cfg.poll_interval_ms;
  batch_size = if ltb_ℤ cfg.batch_size (pos 1) then pos 100 else cfg.batch_size;
  claim_ttl_seconds = if ltb_ℤ cfg.claim_ttl_seconds (pos 1) then pos 30 else cfg.claim_ttl_seconds;
  max_backoff_seconds =
      if ltb_ℤ cfg.max_backoff_seconds (pos 1) then pos 30 else cfg.max_backoff_seconds;
  stream = if str_eq cfg.stream "" then "chronoflow:execution:ready" else cfg.stream;
  consumer_group =
      if str_eq cfg.consumer_group "" then "chronoflow-workers" else cfg.consumer_group;
  stream_max_len = if ltb_ℤ cfg.stream_max_len (pos 0) then pos 0 else cfg.stream_max_len;
}

-- Go's division by a positive number rounds towards 0.
abbrev third : ℤ → ℤ
third (pos n) = pos (n / 3)
third (negsuc n) = if suc n / 3 == 0 then pos 0 else negsuc (suc n / 3 - 1)

unfoldable pub normalize_lease_ttl : ℤ → ℤ
normalize_lease_ttl ttl = if ltb_ℤ ttl (pos 3) then pos 30 else ttl

unfoldable pub normalize_heartbeat : ℤ → ℤ → ℤ
normalize_heartbeat heartbeat ttl =
    if ltb_ℤ heartbeat (pos 1) || leb_ℤ ttl (scale64 heartbeat 2) then third ttl else heartbeat

unfoldable pub normalize_retry_base : ℤ → ℤ
normalize_retry_base base = if ltb_ℤ base (pos 1) then pos 2 else base

unfoldable pub normalize_worker_config : WorkerConfig → WorkerConfig
unfolding normalize_lease_ttl normalize_heartbeat normalize_retry_base
normalize_worker_config cfg =
    let ttl = normalize_lease_ttl cfg.lease_ttl_seconds in
    let base = normalize_retry_base cfg.retry_base_seconds in
    record {
      pool_size = if ltb_ℤ cfg.pool_size (pos 1) then pos 100 else cfg.pool_size;
      read_count = if ltb_ℤ cfg.read_count (pos 1) then pos 20 else cfg.read_count;
      read_block_ms = if ltb_ℤ cfg.read_block_ms (pos 100) then pos 2000 else cfg.read_block_ms;
      lease_ttl_seconds = ttl;
      heartbeat_seconds = normalize_heartbeat cfg.heartbeat_seconds ttl;
      reclaim_idle_seconds =
          if ltb_ℤ cfg.reclaim_idle_seconds ttl then ttl else cfg.reclaim_idle_seconds;
      reclaim_interval_seconds =
          if ltb_ℤ cfg.reclaim_interval_seconds (pos 1)
          then pos 10
          else cfg.reclaim_interval_seconds;
      http_timeout_seconds =
          if ltb_ℤ cfg.http_timeout_seconds (pos 1) then pos 12 else cfg.http_timeout_seconds;
      max_response_bytes =
          if ltb_ℤ cfg.max_response_bytes (pos 1)
          then pos (1024 * 1024)
          else cfg.max_response_bytes;
      retry_base_seconds = base;
      retry_max_seconds =
          if ltb_ℤ cfg.retry_max_seconds base then pos 60 else cfg.retry_max_seconds;
    }

unfoldable pub normalize_recovery_config : RecoveryConfig → RecoveryConfig
normalize_recovery_config cfg =
    let outbox =
      if ltb_ℤ cfg.outbox_retention_days (pos 1) then pos 7 else cfg.outbox_retention_days in
    record {
      enabled = cfg.enabled;
      scan_interval_seconds =
          if ltb_ℤ cfg.scan_interval_seconds (pos 1) then pos 10 else cfg.scan_interval_seconds;
      batch_size = if ltb_ℤ cfg.batch_size (pos 1) then pos 100 else cfg.batch_size;
      pending_stale_seconds =
          if ltb_ℤ cfg.pending_stale_seconds (pos 1) then pos 30 else cfg.pending_stale_seconds;
      cleanup_interval_minutes =
          if ltb_ℤ cfg.cleanup_interval_minutes (pos 1)
          then pos 60
          else cfg.cleanup_interval_minutes;
      outbox_retention_days = outbox;
      execution_retention_days =
          if ltb_ℤ cfg.execution_retention_days outbox
          then pos 30
          else cfg.execution_retention_days;
      stream_retention_hours =
          if ltb_ℤ cfg.stream_retention_hours (pos 1) then pos 24 else cfg.stream_retention_hours;
    }

unfoldable pub normalize_security_config : SecurityConfig → SecurityConfig
normalize_security_config cfg = record cfg {
  allowed_origins = elim cfg.allowed_origins [
    | [] ↦ "http://localhost:3000" ∷ []
    | o ∷ os ↦ o ∷ os
  ];
  max_request_bytes =
      if ltb_ℤ cfg.max_request_bytes (pos 1) then pos (1024 * 1024) else cfg.max_request_bytes;
}
