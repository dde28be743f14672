-- ===== src/Service/Stream/Boundary.antt =====
-- What trimming takes away: TrimAcknowledgedBefore of internal/pkg/redis/stream.go.
use chrono_flow.Common.{
  ltb, lt→ltb, Bool-cases, ◌<◌, ◌≡◌, ◌⊎◌, inl, inr, Bool, true, false, ◌&&◌, arith,
}
use chrono_flow.Model.Timer.{Time}
use chrono_flow.Service.Stream.{stream_id_less, cutoff_id, trim_boundary, StreamId, PendingSummary}

less_trans :
    (a b c : StreamId)
    → stream_id_less a b ≡ true
    → stream_id_less c b ≡ false
    → stream_id_less c a ≡ false
unfolding stream_id_less
less_trans a b c h k = ground arith

above_above :
    (a b c : StreamId)
    → stream_id_less b a ≡ false
    → stream_id_less c b ≡ false
    → stream_id_less c a ≡ false
unfolding stream_id_less
above_above a b c h k = ground arith

-- The two candidates for the boundary, when the lowest pending entry is older than the cutoff.
lower_spares :
    (pending : PendingSummary) (cutoff : Time) (id : StreamId)
    → stream_id_less pending.lower (cutoff_id cutoff) ≡ true
    → (0 < pending.count) × (stream_id_less id pending.lower ≡ false)
      ⊎ (stream_id_less id (cutoff_id cutoff) ≡ false)
    → stream_id_less id pending.lower ≡ false
lower_spares pending cutoff id older (inl h) = h.1
lower_spares pending cutoff id older (inr h) =
    less_trans pending.lower (cutoff_id cutoff) id older h

cutoff_spares :
    (pending : PendingSummary) (cutoff : Time) (id : StreamId)
    → (ltb 0 pending.count && stream_id_less pending.lower (cutoff_id cutoff)) ≡ false
    → (0 < pending.count) × (stream_id_less id pending.lower ≡ false)
      ⊎ (stream_id_less id (cutoff_id cutoff) ≡ false)
    → stream_id_less id (cutoff_id cutoff) ≡ false
cutoff_spares pending cutoff id recent (inr h) = h
cutoff_spares pending cutoff id recent (inl h) =
    above_above (cutoff_id cutoff) pending.lower id
      (no_older (rw (lt→ltb 0 pending.count h.0) at recent)) h.1
  where
    no_older :
        (true && stream_id_less pending.lower (cutoff_id cutoff)) ≡ false
        → stream_id_less pending.lower (cutoff_id cutoff) ≡ false
    no_older e = e

-- An entry is not below the id to which the stream is trimmed if it is not below the lowest pending
-- one, where there is one, or if it is not below the cutoff: neither pending nor recent entries go.
pub trim_boundary_spares :
    (pending : PendingSummary) (cutoff : Time) (id : StreamId)
    → (0 < pending.count) × (stream_id_less id pending.lower ≡ false)
      ⊎ (stream_id_less id (cutoff_id cutoff) ≡ false)
    → stream_id_less id (trim_boundary pending cutoff) ≡ false
unfolding trim_boundary
trim_boundary_spares pending cutoff id h =
    elim (Bool-cases (ltb 0 pending.count && stream_id_less pending.lower (cutoff_id cutoff))) [
      | inl t ↦ rw t (lower_spares pending cutoff id (second _ _ t) h)
      | inr t ↦ rw t (cutoff_spares pending cutoff id t h)
    ]
  where
    second : (a b : Bool) → (a && b) ≡ true → b ≡ true
    second true b e = e
    second false b e = cc
