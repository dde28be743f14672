-- ===== src/Service/Loops.antt =====
-- The loops that Start of internal/service runs on its ticker, up to the end of the context.
pub mod Survival
use chrono_flow.Common.{if◌then◌else◌, ℕ, String, Bool, not, List, [], ◌∷◌}
use chrono_flow.Effect.{◌>>=◌, ◌>>◌, pure, Error}
use chrono_flow.Config.{SchedulerConfig, OutboxConfig, RecoveryConfig}
use chrono_flow.Model.Timer.{Time}
use chrono_flow.Database.{Sql, meanwhile, Database}
use chrono_flow.Repository.Schedule.{ScheduleBatchResult, Json}
use chrono_flow.Service.Cron.{CronLibrary}
use chrono_flow.Service.Scheduler.{schedule}
use chrono_flow.Service.Dispatcher.{dispatch_once, Round, DispatchReport}
use chrono_flow.Service.Reconciler.{reconcile, run_cleanup}

-- A round of a loop: its time, the rows that it finds unlocked, and what other sessions have
-- committed since the last one.
pub record Wake : Type 0 where
  pub at : Time
  pub unlocked : ℕ → Bool
  pub others : Database → Database

-- `for { select { case <-ctx.Done(): return; case <-ticker.C: … } }`
unfoldable pub on_ticks :
    {A B : Type 0} → (A → Database → Database) → (A → Sql B) → List A → Sql (List B)
on_ticks others body [] = pure []
on_ticks others body (tick ∷ ticks) = do
  meanwhile (others tick)
  report ← body tick
  reports ← on_ticks others body ticks
  pure (report ∷ reports)

-- Start of scheduler.go: a round at once, and one for each tick.
unfoldable pub start_scheduler :
    CronLibrary
    → SchedulerConfig
    → Json
    → Wake
    → List Wake
    → Sql (List (ScheduleBatchResult × Bool))
start_scheduler library cfg json first ticks =
    on_ticks (λ w. w.others) (λ w. schedule library cfg json w.unlocked w.at) (first ∷ ticks)

-- Start of outbox_dispatcher.go, with what Redis answers in each round.
unfoldable pub start_dispatcher :
    OutboxConfig
    → String
    → (Error → String)
    → (Wake × Round)
    → List (Wake × Round)
    → Sql (List DispatchReport)
start_dispatcher cfg owner text_of first ticks =
    on_ticks (λ (w, round). w.others)
      (λ (w, round). dispatch_once cfg owner text_of round w.unlocked w.at) (first ∷ ticks)

-- A tick of one of the two tickers of the reconciler.
pub data ReconcilerTick : Type 0 where
  scan : Wake → ReconcilerTick
  clean : Wake → ReconcilerTick

abbrev pub wake_of : ReconcilerTick → Wake
wake_of (scan w) = w
wake_of (clean w) = w

abbrev pub on_reconciler_tick : RecoveryConfig → ReconcilerTick → Sql (Unit {0})
on_reconciler_tick cfg (scan w) = reconcile cfg w.unlocked w.at >>= λ report. pure tt
on_reconciler_tick cfg (clean w) = run_cleanup cfg w.at >>= λ report. pure tt

-- Start of reconciler.go.
unfoldable pub start_reconciler :
    RecoveryConfig → Wake → List ReconcilerTick → Sql (List (Unit {0}))
start_reconciler cfg first ticks =
    if not cfg.enabled
    then pure []
    else on_ticks (λ t. (wake_of t).others) (on_reconciler_tick cfg) (scan first ∷ ticks)
