-- ===== src/Metrics/Gauges.antt =====
-- The gauges of the executions after a scan of the reconciler.
use chrono_flow.Common.{
  if◌then◌else◌, ℕ, String, ◌≡◌, refl, ap, inl, inr, Bool, Option, none, some, List, str_eq,
}
use chrono_flow.Effect.Yields.{Yields-pure, Yields-bind, Yields-wrap_error, Yields-try, Yields}
use chrono_flow.Model.Execution.{
  execution_status_eq, ExecutionStatus, pending, running, retry_wait, success, failed, cancelled,
}
use chrono_flow.Database.{count_where, Sql, query, Database, Session}
use chrono_flow.Metrics.{
  status_name, report_recovery_action, set_execution_count, set_gauges, after_reconcile, Vectors,
  Reporter,
}
use chrono_flow.Database.Outcomes.{OnSuccess}
use chrono_flow.Database.SessionLaws.{statement_cases}
use chrono_flow.Service.Reconciler.{
  gauges, gauges_of, collect_execution_metrics, ReconcileReport, reconcile,
}
use chrono_flow.Effect.{◌>>=◌, pure, wrap_error, try, Result, ok, err}
use chrono_flow.Repository.Executions.{count_by_status}
use chrono_flow.Model.Timer.{Time}
use chrono_flow.Config.{RecoveryConfig}
use chrono_flow.Repository.Recovery.{RecoveryResult}

-- What the gauges rely on: a series has the value that has been set last, and no other series
-- changes with it.
pub record IsVectors (vectors : Vectors) : Type 0 where
  pub value_of-set :
      (label wanted : String) (n : ℕ) (v : vectors.Vector)
      → vectors.value_of wanted (vectors.set label n v)
        ≡ (if str_eq label wanted then some n else vectors.value_of wanted v)

abbrev pub rows_with : ExecutionStatus → Database → ℕ
rows_with status db = count_where (λ e. execution_status_eq e.status status) db.executions

abbrev pub Anything : Session → Type 0
Anything s = Unit {0}

Yields-query :
    {A : Type 0} (read : Database → A)
    → Yields Anything (query read) (OnSuccess (λ a db. a ≡ read db))
unfolding query
Yields-query read = record {
  at = λ s p. elim (statement_cases (λ db. (read db, db)) s) [
    | inl c ↦ rw c.0 tt
    | inr c ↦ rw (c.0, c.1) refl
  ];
}

counted :
    (vectors : Vectors) (laws : IsVectors vectors) (counts : ExecutionStatus → ℕ)
    (status : ExecutionStatus) (r : Reporter vectors)
    → vectors.value_of (status_name status) (set_gauges vectors (gauges counts) r).executions
      ≡ some (counts status)
unfolding set_execution_count
counted vectors laws counts pending r = simp laws.value_of-set
counted vectors laws counts running r = simp laws.value_of-set
counted vectors laws counts retry_wait r = simp laws.value_of-set
counted vectors laws counts success r = simp laws.value_of-set
counted vectors laws counts failed r = simp laws.value_of-set
counted vectors laws counts cancelled r = simp laws.value_of-set

abbrev pub Tried : {A : Type 0} → (Database → A) → Result (Result A) → Session → Type 0
Tried read (ok (ok a)) s = a ≡ read s.db
Tried read (ok (err e)) s = Unit {0}
Tried read (err e) s = Unit {0}

-- A SELECT whose error the caller looks at.
pub Tried-query :
    {A : Type 0} (text : String) (read : Database → A)
    → Yields Anything (try (wrap_error text (query read))) (Tried read)
Tried-query {A} text read =
    Yields-try (Yields-wrap_error text (Yields-query read) (λ e s q. tt)) tell
  where
    tell : (r : Result A) (s : Session) → OnSuccess (λ a db. a ≡ read db) r s → Tried read (ok r) s
    tell (ok a) s q = q
    tell (err e) s q = tt

-- A value that has been read, if it has, is what the tables say at the end.
abbrev pub Shows : {A : Type 0} → (Database → A) → Option A → Database → Type 0
Shows read none db = Unit {0}
Shows read (some a) db = a ≡ read db

abbrev all_gauges : Database → List (ExecutionStatus × ℕ)
all_gauges db = gauges (λ status. rows_with status db)

collect-Shows : Yields Anything collect_execution_metrics (OnSuccess (Shows all_gauges))
unfolding collect_execution_metrics count_by_status
collect-Shows = Yields-bind (Tried _) (Tried-query _ _) (λ e s q. tt) shown
  where
    shown :
        (r : Result (ExecutionStatus → ℕ))
        → Yields
            (Tried (λ db status. rows_with status db) (ok r))
            (pure (gauges_of r))
            (OnSuccess (Shows all_gauges))
    shown (ok counts) = Yields-pure _ (λ s q. ap gauges q)
    shown (err e) = Yields-pure _ (λ s q. tt)

after_recovery-Shows :
    (outcome : Result RecoveryResult)
    → Yields Anything
        (elim outcome as (λ k. Sql ReconcileReport) [
          | err e ↦ pure (none, none)
          | ok result ↦ do metrics ← collect_execution_metrics; pure (some result, metrics)
        ])
        (OnSuccess (λ report. Shows all_gauges report.1))
after_recovery-Shows (err e) = Yields-pure _ (λ s q. tt)
after_recovery-Shows (ok result) =
    Yields-bind (OnSuccess (Shows all_gauges)) collect-Shows (λ e s q. tt)
      λ metrics. Yields-pure _ (λ s q. q)

reconcile-Shows :
    (cfg : RecoveryConfig) (unlocked : ℕ → Bool) (now : Time)
    → Yields Anything (reconcile cfg unlocked now) (OnSuccess (λ report. Shows all_gauges report.1))
unfolding reconcile
reconcile-Shows cfg unlocked now =
    Yields-bind (λ r s. Unit {0}) (record { at = λ s p. tt }) (λ e s q. tt) after_recovery-Shows

-- Once a scan of the reconciler has read the counts, with vectors that keep what is set, the gauge of each status is the number of the
-- rows that have it at the end of the scan, whatever the gauges were before.
pub executions_shown :
    (vectors : Vectors) (laws : IsVectors vectors) (cfg : RecoveryConfig) (unlocked : ℕ → Bool)
    (now : Time) (s : Session) (r : Reporter vectors) (result : RecoveryResult)
    {counts : List (ExecutionStatus × ℕ)} (status : ExecutionStatus)
    → (reconcile cfg unlocked now s).0 ≡ ok (some result, some counts)
    → vectors.value_of
        (status_name status)
        (after_reconcile vectors (some result, some counts) r).executions
      ≡ some (rows_with status (reconcile cfg unlocked now s).1.db)
unfolding after_reconcile report_recovery_action
executions_shown vectors laws cfg unlocked now s r result status scanned =
    let shown = rw scanned at ((reconcile-Shows cfg unlocked now).at s tt) in
    let before = report_recovery_action vectors "terminal_failure" result.final_failures (
      report_recovery_action vectors "expired_lease" result.expired_leases
        (report_recovery_action vectors "reenqueue" result.reenqueued r)) in
    rw shown
      (counted vectors laws (λ x. rows_with x (reconcile cfg unlocked now s).1.db) status before)
