-- ===== src/Service/Reconciler.antt =====
-- internal/service/reconciler.go
use chrono_flow.Common.{pos_part, ℕ, ◌+◌, ◌-◌, ◌*◌, Bool, Option, none, some, List, [], ◌∷◌, map}
use chrono_flow.Effect.{◌>>=◌, pure, try, Result, ok, err}
use chrono_flow.Config.{seconds, RecoveryConfig}
use chrono_flow.Model.Timer.{Time, second}
use chrono_flow.Model.Execution.{
  ExecutionStatus, pending, running, retry_wait, success, failed, cancelled,
}
use chrono_flow.Database.{Sql}
use chrono_flow.Repository.Executions.{count_by_status}
use chrono_flow.Repository.Recovery.{recover_batch, cleanup, RecoveryResult, CleanupResult}

-- The gauges of the six statuses, in the order in which they are set.
abbrev pub gauges : (ExecutionStatus → ℕ) → List (ExecutionStatus × ℕ)
gauges counts =
    map (λ status. (status, counts status))
      (pending ∷ running ∷ retry_wait ∷ success ∷ failed ∷ cancelled ∷ [])

-- none is a reported failure.
abbrev pub gauges_of : Result (ExecutionStatus → ℕ) → Option (List (ExecutionStatus × ℕ))
gauges_of (ok counts) = some (gauges counts)
gauges_of (err e) = none

unfoldable pub collect_execution_metrics : Sql (Option (List (ExecutionStatus × ℕ)))
collect_execution_metrics = do counts ← try count_by_status; pure (gauges_of counts)

-- What a scan reports: the repairs, or none for a failure, and the gauges.
abbrev pub ReconcileReport : Type 0
ReconcileReport = Option RecoveryResult × Option (List (ExecutionStatus × ℕ))

abbrev pub hours : ℕ → ℕ
hours n = n * 3600 * second

-- The number that is reported as cleaned up, or none for a failure.
abbrev pub cleaned_up : Result CleanupResult → Option ℕ
cleaned_up (ok result) = some (result.outbox_events + result.executions)
cleaned_up (err e) = none

module _ (cfg : RecoveryConfig) where
  unfoldable pub reconcile : (ℕ → Bool) → Time → Sql ReconcileReport
  reconcile unlocked now = do
    outcome ←
        try (recover_batch unlocked now (now - seconds cfg.pending_stale_seconds) cfg.batch_size)
    elim outcome [
      | err e ↦ pure (none, none)
      | ok result ↦ do metrics ← collect_execution_metrics; pure (some result, metrics)
    ]

  -- The batch size is positive once the configuration has been loaded.
  unfoldable pub run_cleanup : Time → Sql (Option ℕ)
  run_cleanup now = do
    outcome ← try (
        cleanup (now - pos_part cfg.outbox_retention_days * hours 24)
          (now - pos_part cfg.execution_retention_days * hours 24) (pos_part cfg.batch_size))
    pure (cleaned_up outcome)
