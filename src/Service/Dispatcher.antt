-- ===== src/Service/Dispatcher.antt =====
-- internal/service/outbox_dispatcher.go. What Redis, the clock and the context answer is a parameter
-- of each round.
pub mod Confirmed
use chrono_flow.Common.{if◌then◌else◌, ℕ, ◌+◌, String, Bool, not, Option, none, some, List, [], ◌∷◌}
use chrono_flow.Effect.{◌>>=◌, ◌>>◌, pure, try, Error, Result, ok, err}
use chrono_flow.Config.{seconds, OutboxConfig}
use chrono_flow.Model.Timer.{Time}
use chrono_flow.Model.Outbox.{OutboxEvent}
use chrono_flow.Database.{Sql}
use chrono_flow.Repository.Outbox.{claim_batch, mark_published, mark_failed, count_unpublished}
use chrono_flow.Service.Backoff.{add_duration, backoff}

-- Of each event of the batch: whether the context is still live when the loop reaches it, what XADD
-- answers, and the time after that.
pub record Round : Type 0 where
  pub live : OutboxEvent → Bool
  pub publish : OutboxEvent → Result String
  pub published_at : OutboxEvent → Time

-- What is reported: the publications that have been recorded and those that have not, and the
-- backlog if it was read.
pub record DispatchReport : Type 0 where
  pub published : ℕ
  pub failed : ℕ
  pub backlog : Option ℕ

abbrev pub nothing_dispatched : DispatchReport
nothing_dispatched = record { published = 0; failed = 0; backlog = none }

abbrev pub backlog_of : Result ℕ → Option ℕ
backlog_of (ok n) = some n
backlog_of (err e) = none

unfoldable pub refresh_backlog_metric : DispatchReport → Sql DispatchReport
refresh_backlog_metric report = do
  count ← try count_unpublished
  pure (record report { backlog = backlog_of count })

abbrev pub count_publication : DispatchReport → Result (Unit {0}) → DispatchReport
count_publication report (ok done) = record report { published = report.published + 1 }
count_publication report (err e) = record report { failed = report.failed + 1 }

-- `text_of` is the trimmed and truncated text of an error.
module _ (cfg : OutboxConfig) (owner : String) (text_of : Error → String) (round : Round) where
  unfoldable pub dispatch_event : Time → DispatchReport → OutboxEvent → Sql DispatchReport
  dispatch_event now report event = elim (round.publish event) [
    | err failure ↦ do
      try (
          mark_failed event.event_id owner (text_of failure)
            (add_duration now (backoff cfg.max_backoff_seconds (event.attempts + 1))))
      pure (record report { failed = report.failed + 1 })
    | ok message_id ↦ do
      marked ← try (mark_published event.event_id owner message_id (round.published_at event))
      pure (count_publication report marked)
  ]

  -- The loop, which returns at once when the context has ended.
  unfoldable pub dispatch_events : Time → DispatchReport → List OutboxEvent → Sql DispatchReport
  dispatch_events now report [] = refresh_backlog_metric report
  dispatch_events now report (event ∷ events) =
      if not (round.live event)
      then pure report
      else (do counted ← dispatch_event now report event; dispatch_events now counted events)

  unfoldable pub dispatch_once : (ℕ → Bool) → Time → Sql DispatchReport
  dispatch_once unlocked now = do
    claimed ← try (claim_batch unlocked owner now cfg.batch_size (seconds cfg.claim_ttl_seconds))
    elim claimed [
      | err e ↦ refresh_backlog_metric nothing_dispatched
      | ok events ↦ dispatch_events now nothing_dispatched events
    ]
