-- ===== src/Examples/Running.antt =====
-- The loops of the services, and what the reconciler reports of one execution.
use chrono_flow.Common.{pos, ℕ, ◌≡◌, refl, true, false, some, List, [], ◌∷◌}
use chrono_flow.Effect.{for_each, run, ok}
use chrono_flow.Config.{RecoveryConfig}
use chrono_flow.Model.Execution.{
  ExecutionStatus, pending, running, retry_wait, success, failed, cancelled,
}
use chrono_flow.Repository.Events.{new_execution_outbox_event, insert_event, create_event}
use chrono_flow.Repository.Executions.{update_executions, count_by_status}
use chrono_flow.Repository.Recovery.{
  is_stuck, select_stuck, is_expired_row, given_up, put_back, enqueued_at, has_id, reenqueue,
  recover_one, recover_batch, RecoveryResult,
}
use chrono_flow.Service.Reconciler.{collect_execution_metrics, reconcile}
use chrono_flow.Metrics.{new_reporter, after_reconcile}
use chrono_flow.Metrics.Gauges.{rows_with, executions_shown}
use chrono_flow.Service.Scheduler.{schedule}
use chrono_flow.Service.Dispatcher.{dispatch_once, Round}
use chrono_flow.Service.Loops.{
  start_scheduler, start_dispatcher, start_reconciler, on_reconciler_tick, wake_of, scan, clean,
  Wake, ReconcilerTick,
}
use chrono_flow.Service.Loops.Survival.{loops_go_on, AllRounds}
use chrono_flow.Examples.Data.{
  no_json, every_ten, scheduler_cfg, leased_row, tables, session, vectors,
}
use chrono_flow.Examples.Services.{answering, outbox_cfg}
use chrono_flow.Database.{update_where, count_where, order_by, run_sql, Session}

abbrev recovery_cfg : RecoveryConfig
recovery_cfg = record {
  enabled = true;
  scan_interval_seconds = pos 10;
  batch_size = pos 100;
  pending_stale_seconds = pos 30;
  cleanup_interval_minutes = pos 60;
  outbox_retention_days = pos 7;
  execution_retention_days = pos 30;
  stream_retention_hours = pos 24;
}

abbrev repaired : RecoveryResult
repaired = record { reenqueued = 1; expired_leases = 1; final_failures = 0 }

abbrev one_waits : List (ExecutionStatus × ℕ)
one_waits =
    (pending, 0) ∷ (running, 0) ∷ (retry_wait, 1) ∷ (success, 0) ∷ (failed, 0) ∷ (cancelled, 0) ∷ []

-- The lease of the execution has run out.
scanned :
    (reconcile recovery_cfg (λ id. true) 600 (session leased_row)).0
    ≡ ok (some repaired, some one_waits)
unfolding reconcile recover_batch select_stuck is_stuck recover_one is_expired_row put_back
    reenqueue enqueued_at has_id given_up create_event insert_event new_execution_outbox_event
    update_executions collect_execution_metrics count_by_status order_by update_where count_where
    run_sql run for_each
scanned = refl

executions_shown_example :
    vectors.value_of "RETRY_WAIT"
      (after_reconcile vectors (some repaired, some one_waits) (new_reporter vectors)).executions
    ≡ some
        (rows_with retry_wait (reconcile recovery_cfg (λ id. true) 600 (session leased_row)).1.db)
executions_shown_example =
    executions_shown vectors (record { value_of-set = λ label wanted n v. refl }) recovery_cfg
      (λ id. true) 600 (session leased_row) (new_reporter vectors) repaired retry_wait scanned

-- A round at a time, with nothing from other sessions.
abbrev wake_at : ℕ → Wake
wake_at time = record { at = time; unlocked = λ id. true; others = λ db. db }

abbrev published_at : ℕ → Wake × Round
published_at time = (wake_at time, answering)

-- The first and the third statement fail.
abbrev faulty : Session
faulty = record { db = tables leased_row; faults = true ∷ false ∷ true ∷ [] }

abbrev reconciler_ticks : List ReconcilerTick
reconciler_ticks = scan (wake_at 700) ∷ clean (wake_at 800) ∷ []

loops_go_on_example :
    AllRounds
      (λ (w : Wake). w.others)
      (λ w. schedule every_ten scheduler_cfg no_json w.unlocked w.at)
      (wake_at 600 ∷ wake_at 700 ∷ [])
      faulty
      (start_scheduler every_ten scheduler_cfg no_json (wake_at 600) (wake_at 700 ∷ []) faulty)
    × AllRounds
        (λ (t : Wake × Round). t.0.others)
        (λ t. dispatch_once outbox_cfg "d1" (λ e. "error") t.1 t.0.unlocked t.0.at)
        (published_at 600 ∷ published_at 700 ∷ [])
        faulty
        (start_dispatcher outbox_cfg "d1"
          (λ e. "error")
          (published_at 600)
          (published_at 700 ∷ [])
          faulty)
    × AllRounds
        (λ t. (wake_of t).others)
        (on_reconciler_tick recovery_cfg)
        (scan (wake_at 600) ∷ reconciler_ticks)
        faulty
        (start_reconciler recovery_cfg (wake_at 600) reconciler_ticks faulty)
loops_go_on_example =
    loops_go_on every_ten scheduler_cfg no_json (wake_at 600) (wake_at 700 ∷ []) outbox_cfg "d1"
      (λ e. "error") (published_at 600) (published_at 700 ∷ []) recovery_cfg reconciler_ticks faulty
      refl
