-- ===== src/Config/Loading.antt =====
-- The remaining sections of internal/config/config.go, and Load, to which viper is a parameter.
use chrono_flow.Common.{if◌then◌else◌, ltb_ℤ, ℤ, pos, String, true, false, Option, [], ◌∷◌, str_eq}
use chrono_flow.Effect.{wrap, Result, ok, err}
use chrono_flow.Config.{
  normalize_scheduler_config, normalize_outbox_config, normalize_worker_config,
  normalize_recovery_config, normalize_security_config, SchedulerConfig, OutboxConfig, WorkerConfig,
  RecoveryConfig, SecurityConfig,
}

pub record RuntimeConfig : Type 0 where
  pub shutdown_timeout_seconds : ℤ

pub record MigrationConfig : Type 0 where
  pub path : String

pub record MonitoringConfig : Type 0 where
  pub prometheus_url : String
  pub grafana_url : String

-- The sections that Load corrects.
pub record LoadedConfig : Type 0 where
  pub runtime : RuntimeConfig
  pub migrations : MigrationConfig
  pub scheduler : SchedulerConfig
  pub outbox : OutboxConfig
  pub worker : WorkerConfig
  pub recovery : RecoveryConfig
  pub security : SecurityConfig
  pub monitoring : MonitoringConfig

unfoldable pub normalize_runtime_config : RuntimeConfig → RuntimeConfig
normalize_runtime_config cfg = record {
  shutdown_timeout_seconds =
      if ltb_ℤ cfg.shutdown_timeout_seconds (pos 1) then pos 15 else cfg.shutdown_timeout_seconds;
}

-- `trim_space` is strings.TrimSpace.
unfoldable pub normalize_migration_config : (String → String) → MigrationConfig → MigrationConfig
normalize_migration_config trim_space cfg = record {
  path = if str_eq (trim_space cfg.path) "" then "migrations" else cfg.path;
}

unfoldable pub normalize_monitoring_config : MonitoringConfig → MonitoringConfig
normalize_monitoring_config cfg = record {
  prometheus_url =
      if str_eq cfg.prometheus_url "" then "http://localhost:9090" else cfg.prometheus_url;
  grafana_url = if str_eq cfg.grafana_url "" then "http://localhost:3001" else cfg.grafana_url;
}

unfoldable pub normalized : (String → String) → LoadedConfig → LoadedConfig
unfolding normalize_runtime_config normalize_migration_config normalize_scheduler_config
    normalize_outbox_config normalize_worker_config normalize_recovery_config
    normalize_security_config normalize_monitoring_config
normalized trim_space cfg = record {
  runtime = normalize_runtime_config cfg.runtime;
  migrations = normalize_migration_config trim_space cfg.migrations;
  scheduler = normalize_scheduler_config cfg.scheduler;
  outbox = normalize_outbox_config cfg.outbox;
  worker = normalize_worker_config cfg.worker;
  recovery = normalize_recovery_config cfg.recovery;
  security = normalize_security_config cfg.security;
  monitoring = normalize_monitoring_config cfg.monitoring;
}

-- The arguments are what ReadInConfig, which may find no file, and Unmarshal answer.
unfoldable pub load :
    (String → String) → Result (Option (Unit {0})) → Result LoadedConfig → Result LoadedConfig
unfolding normalized
load trim_space (err e) decoded = err (wrap "failed to read config" e)
load trim_space (ok found) (err e) = err (wrap "failed to unmarshal config" e)
load trim_space (ok found) (ok cfg) = ok (normalized trim_space cfg)

-- setDefaults, of the sections that Load corrects.
unfoldable pub set_defaults : LoadedConfig
set_defaults = record {
  runtime = record { shutdown_timeout_seconds = pos 15 };
  migrations = record { path = "migrations" };
  scheduler = record {
    poll_interval_ms = pos 500;
    batch_size = pos 100;
    misfire_grace_seconds = pos 30;
    default_max_catch_up = pos 10;
  };
  outbox = record {
    poll_interval_ms = pos 200;
    batch_size = pos 100;
    claim_ttl_seconds = pos 30;
    max_backoff_seconds = pos 30;
    stream = "chronoflow:execution:ready";
    consumer_group = "chronoflow-workers";
    stream_max_len = pos 0;
  };
  worker = record {
    pool_size = pos 100;
    read_count = pos 20;
    read_block_ms = pos 2000;
    lease_ttl_seconds = pos 30;
    heartbeat_seconds = pos 10;
    reclaim_idle_seconds = pos 30;
    reclaim_interval_seconds = pos 10;
    http_timeout_seconds = pos 12;
    max_response_bytes = pos 1048576;
    retry_base_seconds = pos 2;
    retry_max_seconds = pos 60;
  };
  recovery = record {
    enabled = true;
    scan_interval_seconds = pos 10;
    batch_size = pos 100;
    pending_stale_seconds = pos 30;
    cleanup_interval_minutes = pos 60;
    outbox_retention_days = pos 7;
    execution_retention_days = pos 30;
    stream_retention_hours = pos 24;
  };
  security = record {
    api_key = "";
    allowed_origins = "http://localhost:3000" ∷ [];
    allow_private_callbacks = false;
    max_request_bytes = pos 1048576;
  };
  monitoring = record {
    prometheus_url = "http://localhost:9090";
    grafana_url = "http://localhost:3001";
  };
}
