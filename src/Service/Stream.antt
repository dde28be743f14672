-- ===== src/Service/Stream.antt =====
-- internal/pkg/redis/stream.go. Of Redis only the answers are given: XPENDING answers a summary, and
-- XTRIM MINID removes the entries below an id.
pub mod Boundary
pub mod Messages
pub mod Retention
use chrono_flow.Common.{ltb, ◌==◌, if◌then◌else◌, ℕ, ◌/◌, Bool, ◌&&◌, ◌||◌}
use chrono_flow.Model.Timer.{Time, millisecond}

-- "<milliseconds>-<sequence>", as streamIDLess reads it.
pub record StreamId : Type 0 where
  pub milliseconds : ℕ
  pub sequence : ℕ

unfoldable pub stream_id_less : StreamId → StreamId → Bool
stream_id_less left right =
    ltb left.milliseconds right.milliseconds
    || left.milliseconds == right.milliseconds && ltb left.sequence right.sequence

-- The summary of XPENDING.
pub record PendingSummary : Type 0 where
  pub count : ℕ
  pub lower : StreamId

-- "%d-0" of cutoff.UnixMilli().
unfoldable pub cutoff_id : Time → StreamId
cutoff_id cutoff = record { milliseconds = cutoff / millisecond; sequence = 0 }

-- The MINID that TrimAcknowledgedBefore passes on.
unfoldable pub trim_boundary : PendingSummary → Time → StreamId
unfolding stream_id_less cutoff_id
trim_boundary pending cutoff =
    if ltb 0 pending.count && stream_id_less pending.lower (cutoff_id cutoff)
    then pending.lower
    else cutoff_id cutoff
