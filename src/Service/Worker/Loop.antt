-- ===== src/Service/Worker/Loop.antt =====
-- The loop of Start in internal/service/stream_worker.go. What the clock, Redis and the pool answer
-- is a parameter of each round, and the messages that the pool has taken are those that are
-- processed.
pub mod Reclaiming
use chrono_flow.Common.{
  ltb, if◌then◌else◌, ◌+◌, String, Bool, true, false, Option, List, [], ◌∷◌, ◌++◌, str_eq,
}
use chrono_flow.Effect.{Result, ok, err}
use chrono_flow.Config.{seconds, WorkerConfig}
use chrono_flow.Model.Timer.{Time}
use chrono_flow.Service.Stream.Messages.{read_new, auto_claim, StreamMessage, Entry}

-- The variables of the loop; `submitted` is in order, each message with whether it was reclaimed.
pub record WorkerLoop : Type 0 where
  pub reclaim_cursor : String
  pub next_reclaim : Time
  pub submitted : List (StreamMessage × Bool)

-- One round: two readings of the clock, XAUTOCLAIM at each cursor, XREADGROUP, and whether the pool
-- takes a message.
pub record Turn : Type 0 where
  pub now : Time
  pub claimed_at : Time
  pub claim_answer : String → Result (Option (List Entry × String))
  pub read_answer : Result (Option (List (List Entry)))
  pub takes : StreamMessage → Bool

abbrev pub starting : Time → WorkerLoop
starting now = record { reclaim_cursor = "0-0"; next_reclaim = now; submitted = [] }

-- `for _, message := range messages { w.submit(ctx, message, reclaimed) }`: a message that the pool
-- refuses is logged only, and stays pending in Redis.
unfoldable pub submit_all :
    (StreamMessage → Bool) → Bool → List StreamMessage → List (StreamMessage × Bool)
submit_all takes reclaimed [] = []
submit_all takes reclaimed (msg ∷ msgs) =
    let rest = submit_all takes reclaimed msgs in
    if takes msg then (msg, reclaimed) ∷ rest else rest

abbrev pub or_start : String → String
or_start next = if str_eq next "" then "0-0" else next

abbrev pub after_read : Turn → WorkerLoop → Result (List StreamMessage) → WorkerLoop
after_read turn w (ok messages) = record w {
  submitted = w.submitted ++ submit_all turn.takes false messages;
}
after_read turn w (err e) = w

module _ (print_bytes : String → String) (cfg : WorkerConfig) where
  abbrev pub after_auto_claim :
      Turn → WorkerLoop → Result (List StreamMessage) × String → WorkerLoop
  after_auto_claim turn w (ok messages, next) = record {
    reclaim_cursor = or_start next;
    next_reclaim = turn.claimed_at + seconds cfg.reclaim_interval_seconds;
    submitted = w.submitted ++ submit_all turn.takes true messages;
  }
  after_auto_claim turn w (err e, next) = record w {
    next_reclaim = turn.claimed_at + seconds cfg.reclaim_interval_seconds;
  }

  unfoldable pub reclaim : Turn → WorkerLoop → WorkerLoop
  reclaim turn w =
      if ltb turn.now w.next_reclaim
      then w
      else after_auto_claim turn w
          (auto_claim print_bytes w.reclaim_cursor (turn.claim_answer w.reclaim_cursor))

  unfoldable pub turn_once : Turn → WorkerLoop → WorkerLoop
  unfolding reclaim
  turn_once turn w = after_read turn (reclaim turn w) (read_new print_bytes turn.read_answer)

  -- The rounds up to the end of the context.
  unfoldable pub start : List Turn → WorkerLoop → WorkerLoop
  start [] w = w
  start (turn ∷ turns) w = start turns (turn_once turn w)
