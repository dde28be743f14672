-- ===== src/Metrics.antt =====
-- internal/pkg/metrics/reporter.go, and what the services report to it. The values of Prometheus are
-- natural numbers; a histogram is the number of its observations.
pub mod Gauges
pub mod Backlog
use chrono_flow.Common.{
  if◌then◌else◌, ℕ, zero, suc, ◌+◌, String, Bool, true, false, Option, none, some, List, [], ◌∷◌,
}
use chrono_flow.Model.Execution.{
  ExecutionStatus, pending, running, retry_wait, success, failed, cancelled,
}
use chrono_flow.Repository.Schedule.{ScheduleBatchResult}
use chrono_flow.Service.Reconciler.{ReconcileReport}
use chrono_flow.Service.Dispatcher.{DispatchReport}

-- Of client_golang: the series of a vector by the values of their label, with the series that have
-- been made by WithLabelValues, with Add and with Set.
pub record Vectors : Type 1 where
  pub Vector : Type 0
  pub made : List String → Vector
  pub add : String → ℕ → Vector → Vector
  pub set : String → ℕ → Vector → Vector
  pub value_of : String → Vector → Option ℕ

abbrev pub result_label : Bool → String
result_label succeeded = if succeeded then "success" else "failed"

-- string(status)
abbrev pub status_name : ExecutionStatus → String
status_name pending = "PENDING"
status_name running = "RUNNING"
status_name retry_wait = "RETRY_WAIT"
status_name success = "SUCCESS"
status_name failed = "FAILED"
status_name cancelled = "CANCELLED"

abbrev pub repeated : {A : Type 0} → ℕ → (A → A) → A → A
repeated zero f a = a
repeated (suc n) f a = f (repeated n f a)

pub record Reporter (vectors : Vectors) : Type 0 where
  pub scheduler_batches : vectors.Vector
  pub scheduler_executions : ℕ
  pub scheduler_duplicates : ℕ
  pub scheduler_batch_duration : ℕ
  pub outbox_publish : vectors.Vector
  pub outbox_unpublished : ℕ
  pub worker_executions : vectors.Vector
  pub worker_duration : vectors.Vector
  pub worker_retries : ℕ
  pub worker_lease_lost : ℕ
  pub worker_redeliveries : ℕ
  pub worker_pending : ℕ
  pub recovery_actions : vectors.Vector
  pub recovery_failures : ℕ
  pub executions : vectors.Vector

module _ (vectors : Vectors) where
  -- The reporter with all its series.
  unfoldable pub new_reporter : Reporter vectors
  new_reporter = record {
    scheduler_batches = vectors.made ("success" ∷ "failed" ∷ []);
    scheduler_executions = 0;
    scheduler_duplicates = 0;
    scheduler_batch_duration = 0;
    outbox_publish = vectors.made ("success" ∷ "failed" ∷ []);
    outbox_unpublished = 0;
    worker_executions = vectors.made ("success" ∷ "failed" ∷ []);
    worker_duration = vectors.made ("success" ∷ "failed" ∷ []);
    worker_retries = 0;
    worker_lease_lost = 0;
    worker_redeliveries = 0;
    worker_pending = 0;
    recovery_actions =
        vectors.made ("reenqueue" ∷ "expired_lease" ∷ "terminal_failure" ∷ "cleanup" ∷ []);
    recovery_failures = 0;
    executions =
        vectors.made
          ("PENDING" ∷ "RUNNING" ∷ "RETRY_WAIT" ∷ "SUCCESS" ∷ "FAILED" ∷ "CANCELLED" ∷ []);
  }

  unfoldable pub report_scheduler_batch : ℕ → ℕ → Bool → Reporter vectors → Reporter vectors
  report_scheduler_batch executions duplicates committed r = record r {
    scheduler_batches = vectors.add (result_label committed) 1 r.scheduler_batches;
    scheduler_executions = r.scheduler_executions + executions;
    scheduler_duplicates = r.scheduler_duplicates + duplicates;
    scheduler_batch_duration = r.scheduler_batch_duration + 1;
  }

  unfoldable pub report_outbox_publish : Bool → Reporter vectors → Reporter vectors
  report_outbox_publish published r = record r {
    outbox_publish = vectors.add (result_label published) 1 r.outbox_publish;
  }

  unfoldable pub set_outbox_unpublished : ℕ → Reporter vectors → Reporter vectors
  set_outbox_unpublished count r = record r { outbox_unpublished = count }

  unfoldable pub report_worker_execution : String → Reporter vectors → Reporter vectors
  report_worker_execution result r = record r {
    worker_executions = vectors.add result 1 r.worker_executions;
    worker_duration = vectors.add result 1 r.worker_duration;
  }

  unfoldable pub report_worker_retry : Reporter vectors → Reporter vectors
  report_worker_retry r = record r { worker_retries = r.worker_retries + 1 }

  unfoldable pub report_worker_lease_lost : Reporter vectors → Reporter vectors
  report_worker_lease_lost r = record r { worker_lease_lost = r.worker_lease_lost + 1 }

  unfoldable pub report_worker_redelivery : Reporter vectors → Reporter vectors
  report_worker_redelivery r = record r { worker_redeliveries = r.worker_redeliveries + 1 }

  unfoldable pub set_worker_pending : ℕ → Reporter vectors → Reporter vectors
  set_worker_pending count r = record r { worker_pending = count }

  unfoldable pub report_recovery_action : String → ℕ → Reporter vectors → Reporter vectors
  report_recovery_action action count r = record r {
    recovery_actions = vectors.add action count r.recovery_actions;
  }

  unfoldable pub report_recovery_failure : Reporter vectors → Reporter vectors
  report_recovery_failure r = record r { recovery_failures = r.recovery_failures + 1 }

  unfoldable pub set_execution_count : String → ℕ → Reporter vectors → Reporter vectors
  set_execution_count status count r = record r {
    executions = vectors.set status count r.executions;
  }

  -- The reports of schedule.
  abbrev pub after_schedule : ScheduleBatchResult × Bool → Reporter vectors → Reporter vectors
  after_schedule (result, committed) =
      report_scheduler_batch result.executions result.duplicates committed

  abbrev pub set_backlog : Option ℕ → Reporter vectors → Reporter vectors
  set_backlog none r = r
  set_backlog (some count) r = set_outbox_unpublished count r

  -- The reports of dispatchOnce and refreshBacklogMetric.
  unfoldable pub after_dispatch : DispatchReport → Reporter vectors → Reporter vectors
  unfolding set_outbox_unpublished
  after_dispatch report r = set_backlog report.backlog (
      repeated report.failed (report_outbox_publish false)
        (repeated report.published (report_outbox_publish true) r))

  -- The loop over the gauges in collectExecutionMetrics.
  abbrev pub set_gauges : List (ExecutionStatus × ℕ) → Reporter vectors → Reporter vectors
  set_gauges [] r = r
  set_gauges ((status, count) ∷ counts) r =
      set_gauges counts (set_execution_count (status_name status) count r)

  -- The reports of collectExecutionMetrics.
  abbrev pub after_collecting :
      Option (List (ExecutionStatus × ℕ)) → Reporter vectors → Reporter vectors
  after_collecting none r = report_recovery_failure r
  after_collecting (some counts) r = set_gauges counts r

  -- The reports of reconcile: after a failed scan nothing is collected.
  unfoldable pub after_reconcile : ReconcileReport → Reporter vectors → Reporter vectors
  unfolding set_execution_count report_recovery_failure
  after_reconcile (none, gauges) r = report_recovery_failure r
  after_reconcile (some result, gauges) r = after_collecting gauges (
      report_recovery_action "terminal_failure" result.final_failures (
        report_recovery_action "expired_lease" result.expired_leases
          (report_recovery_action "reenqueue" result.reenqueued r)))

  -- The reports of cleanup.
  abbrev pub after_cleanup : Option ℕ → Reporter vectors → Reporter vectors
  after_cleanup none = report_recovery_failure
  after_cleanup (some count) = report_recovery_action "cleanup" count
