-- ===== src/Service/Backoff.antt =====
-- The exponential delays of internal/service/outbox_dispatcher.go and stream_worker.go.
pub mod Bounds
use chrono_flow.Common.{ltb, if◌then◌else◌, ltb_ℤ, scale64, ℤ, pos, negsuc, ℕ, suc, ◌+◌, ◌-◌, ◌^◌}
use chrono_flow.Model.Timer.{Time, second}

-- A time.Duration, in nanoseconds.
abbrev pub Duration : Type 0
Duration = ℤ

-- Time.Add.
abbrev pub add_duration : Time → Duration → Time
add_duration t (pos n) = t + n
add_duration t (negsuc n) = t - suc n

-- `if attempt < 1 { attempt = 1 }`, `exponent := attempt - 1` and its cap.
unfoldable pub exponent : ℕ → ℕ
exponent attempt =
    let from_one = if ltb attempt 1 then 1 else attempt in
    let e = from_one - 1 in if ltb 30 e then 30 else e

abbrev pub capped : ℤ → ℤ → ℤ
capped maximum seconds = if ltb_ℤ maximum seconds then maximum else seconds

-- backoff of the dispatcher, with its MaxBackoffSeconds.
unfoldable pub backoff : ℤ → ℕ → Duration
unfolding exponent
backoff max_backoff_seconds attempt =
    scale64 (capped max_backoff_seconds (pos (2 ^ exponent attempt))) second

-- retryBackoff of the worker, with its RetryBaseSeconds and RetryMaxSeconds.
unfoldable pub retry_backoff : ℤ → ℤ → ℕ → Duration
unfolding exponent
retry_backoff retry_base_seconds retry_max_seconds attempt =
    scale64 (capped retry_max_seconds (scale64 retry_base_seconds (2 ^ exponent attempt))) second
