-- ===== src/Service/Stream/Retention.antt =====
-- The calls of internal/pkg/redis/stream.go on the pending entries, and StreamRetentionCleaner of
-- internal/service/reconciler.go.
use chrono_flow.Common.{if◌then◌else◌, pos_part, ℕ, ◌-◌, Option, none, some, List, [], map}
use chrono_flow.Effect.{wrap, Result, ok, err}
use chrono_flow.Config.{RecoveryConfig}
use chrono_flow.Model.Timer.{Time}
use chrono_flow.Service.Reconciler.{hours}
use chrono_flow.Service.Stream.{trim_boundary, StreamId, PendingSummary}

-- XACK, where the number of entries is not looked at.
unfoldable pub ack : Result ℕ → Result (Unit {0})
ack (ok acknowledged) = ok tt
ack (err e) = err (wrap "acknowledge Redis Stream message" e)

unfoldable pub pending_count : Result PendingSummary → Result ℕ
pending_count (ok pending) = ok pending.count
pending_count (err e) = err (wrap "read Redis Stream pending state" e)

abbrev pub trimmed : Result ℕ → Result ℕ
trimmed (ok n) = ok n
trimmed (err e) = err (wrap "trim acknowledged Redis Stream history" e)

-- `trim` is XTRIM MINID, and the other argument what XPENDING answers.
unfoldable pub trim_acknowledged_before :
    (StreamId → Result ℕ) → Result PendingSummary → Time → Result ℕ
unfolding trim_boundary
trim_acknowledged_before trim (err e) cutoff = err (wrap "read Redis Stream pending boundary" e)
trim_acknowledged_before trim (ok pending) cutoff = trimmed (trim (trim_boundary pending cutoff))

-- One of the ticks of the cleaner: its time and what Redis answers.
pub record CleanerTick : Type 0 where
  pub at : Time
  pub pending : Result PendingSummary
  pub trim : StreamId → Result ℕ

-- The entries that are reported as cleaned up, or none for a failure.
abbrev pub reported_as : Result ℕ → Option ℕ
reported_as (ok n) = some n
reported_as (err e) = none

module _ (cfg : RecoveryConfig) where
  unfoldable pub clean_stream : CleanerTick → Option ℕ
  unfolding trim_acknowledged_before
  clean_stream tick = reported_as (
      trim_acknowledged_before tick.trim tick.pending
        (tick.at - hours (pos_part cfg.stream_retention_hours)))

  -- Start, up to the end of the context.
  unfoldable pub start_cleaner : List CleanerTick → List (Option ℕ)
  unfolding clean_stream
  start_cleaner ticks = if cfg.enabled then map clean_stream ticks else []
