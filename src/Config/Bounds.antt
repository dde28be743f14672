-- ===== src/Config/Bounds.antt =====
-- What the roles may rely on after internal/config/config.go has normalised a configuration.
use chrono_flow.Common.{
  if◌then◌else◌, pos_part, ltb_ℤ, leb_ℤ, wrap64_small, ℤ, pos, negsuc, ℕ, ◌*◌, ◌^◌, ◌<◌, ◌≡◌, refl,
  true, arith,
}
use chrono_flow.Config.{
  normalize_lease_ttl, normalize_heartbeat, normalize_retry_base, normalize_worker_config,
  WorkerConfig,
}

-- The settings of a worker: those that are counts or times are positive, two heartbeats fit into a
-- lease, and a message is not taken over before a lease can have expired.
pub record IsWorkable (cfg : WorkerConfig) : Type 0 where
  pub pool_size : leb_ℤ (pos 1) cfg.pool_size ≡ true
  pub read_count : leb_ℤ (pos 1) cfg.read_count ≡ true
  pub read_block : leb_ℤ (pos 100) cfg.read_block_ms ≡ true
  pub lease : leb_ℤ (pos 3) cfg.lease_ttl_seconds ≡ true
  pub heartbeat : leb_ℤ (pos 1) cfg.heartbeat_seconds ≡ true
  pub two_heartbeats : pos_part cfg.heartbeat_seconds * 2 < pos_part cfg.lease_ttl_seconds
  pub reclaim_idle : leb_ℤ cfg.lease_ttl_seconds cfg.reclaim_idle_seconds ≡ true
  pub reclaim_interval : leb_ℤ (pos 1) cfg.reclaim_interval_seconds ≡ true
  pub http_timeout : leb_ℤ (pos 1) cfg.http_timeout_seconds ≡ true
  pub response_bytes : leb_ℤ (pos 1) cfg.max_response_bytes ≡ true
  pub retry_base : leb_ℤ (pos 1) cfg.retry_base_seconds ≡ true
  pub retry_max : leb_ℤ (pos 1) cfg.retry_max_seconds ≡ true

lease_bound : (ttl : ℤ) → leb_ℤ (pos 3) (normalize_lease_ttl ttl) ≡ true
unfolding normalize_lease_ttl
lease_bound (pos n) = ground arith
lease_bound (negsuc n) = ground arith

heartbeat_bound :
    (heartbeat ttl : ℤ)
    → leb_ℤ (pos 3) ttl ≡ true
    → ltb_ℤ heartbeat (pos (2 ^ 62)) ≡ true
    → (leb_ℤ (pos 1) (normalize_heartbeat heartbeat ttl) ≡ true)
      × (pos_part (normalize_heartbeat heartbeat ttl) * 2 < pos_part ttl)
unfolding normalize_heartbeat
heartbeat_bound heartbeat (negsuc t) h small = ground arith
heartbeat_bound (pos n) (pos t) h small = rw (wrap64_small (n * 2) (ground arith)) (ground arith)
heartbeat_bound (negsuc n) (pos t) h small = ground arith

at_least :
    (least : ℕ) (default n : ℤ)
    → leb_ℤ (pos least) default ≡ true
    → leb_ℤ (pos least) (if ltb_ℤ n (pos least) then default else n) ≡ true
at_least least (pos d) (pos n) h = ground arith
at_least least (pos d) (negsuc n) h = ground arith
at_least least (negsuc d) (pos n) h = ground arith
at_least least (negsuc d) (negsuc n) h = ground arith

not_below : (a b : ℤ) → leb_ℤ a (if ltb_ℤ b a then a else b) ≡ true
not_below (pos a) (pos b) = ground arith
not_below (pos a) (negsuc b) = ground arith
not_below (negsuc a) (pos b) = ground arith
not_below (negsuc a) (negsuc b) = ground arith

base_bound : (base : ℤ) → leb_ℤ (pos 1) (normalize_retry_base base) ≡ true
unfolding normalize_retry_base
base_bound base = at_least 1 (pos 2) base refl

positive_or :
    (a b d : ℤ)
    → leb_ℤ (pos 1) a ≡ true
    → leb_ℤ (pos 1) d ≡ true
    → leb_ℤ (pos 1) (if ltb_ℤ b a then d else b) ≡ true
positive_or (pos a) (pos b) (pos d) h k = ground arith
positive_or (pos a) (negsuc b) (pos d) h k = ground arith
positive_or (negsuc a) b d h k = ground arith
positive_or (pos a) b (negsuc d) h k = ground arith

-- Whatever the configuration says, a worker's settings are workable after normalizeWorkerConfig, if
-- the heartbeat was below 2^62 seconds.
pub normalize_worker_config-IsWorkable :
    (cfg : WorkerConfig)
    → ltb_ℤ cfg.heartbeat_seconds (pos (2 ^ 62)) ≡ true
    → IsWorkable (normalize_worker_config cfg)
unfolding normalize_worker_config
normalize_worker_config-IsWorkable cfg small =
    let lease = lease_bound cfg.lease_ttl_seconds in
    let ttl = normalize_lease_ttl cfg.lease_ttl_seconds in
    let beat = heartbeat_bound cfg.heartbeat_seconds ttl lease small in
    let base = normalize_retry_base cfg.retry_base_seconds in
    record {
      pool_size = at_least 1 (pos 100) cfg.pool_size refl;
      read_count = at_least 1 (pos 20) cfg.read_count refl;
      read_block = at_least 100 (pos 2000) cfg.read_block_ms refl;
      lease = lease;
      heartbeat = beat.0;
      two_heartbeats = beat.1;
      reclaim_idle = not_below ttl cfg.reclaim_idle_seconds;
      reclaim_interval = at_least 1 (pos 10) cfg.reclaim_interval_seconds refl;
      http_timeout = at_least 1 (pos 12) cfg.http_timeout_seconds refl;
      response_bytes = at_least 1 (pos (1024 * 1024)) cfg.max_response_bytes refl;
      retry_base = base_bound cfg.retry_base_seconds;
      retry_max =
          positive_or base cfg.retry_max_seconds (pos 60) (base_bound cfg.retry_base_seconds) refl;
    }
