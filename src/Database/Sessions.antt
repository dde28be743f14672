-- ===== src/Database/Sessions.antt =====
-- The database, and a session on it.
use chrono_flow.Common.{ℕ, Bool, true, false, List, [], ◌∷◌}
use chrono_flow.Effect.{Action, continue, ◌>>=◌, run, database, Result, ok, err}
use chrono_flow.Model.Timer.{TimerDefinition}
use chrono_flow.Model.Execution.{TimerExecution}
use chrono_flow.Model.Outbox.{OutboxEvent}

-- The three tables with their AUTO_INCREMENT counters.
pub record Database : Type 0 where
  pub timers : List TimerDefinition
  pub executions : List TimerExecution
  pub outbox : List OutboxEvent
  pub next_timer_id : ℕ
  pub next_execution_id : ℕ
  pub next_event_id : ℕ

-- A session: `faults` says of each coming statement whether it fails, and no more statements fail
-- when it has run out.
pub record Session : Type 0 where
  pub db : Database
  pub faults : List Bool

abbrev pub Sql : Type 0 → Type 0
Sql = Action Session

abbrev pub run_statement :
    {A : Type 0} → List Bool → (Database → A × Database) → Database → Result A × Session
run_statement [] run db = (ok (run db).0, record { db = (run db).1; faults = [] })
run_statement (false ∷ faults) run db = (ok (run db).0, record { db = (run db).1; faults = faults })
run_statement (true ∷ faults) run db = (err database, record { db = db; faults = faults })

-- One SQL statement: it has its effect and its result, or it fails and changes nothing.
unfoldable pub statement : {A : Type 0} → (Database → A × Database) → Sql A
statement run s = run_statement s.faults run s.db

-- A SELECT.
unfoldable pub query : {A : Type 0} → (Database → A) → Sql A
query read = statement (λ db. (read db, db))

-- COMMIT is a statement too; after any error the tables are as they were.
unfoldable pub transaction : {A : Type 0} → Sql A → Sql A
unfolding statement
transaction body s =
    continue ((body >>= λ a. statement (λ db. (a, db))) s) (λ a s'. (ok a, s'))
      (λ e s'. (err e, record s' { db = s.db }))

-- What other sessions commit between two statements that are in no transaction.
unfoldable pub meanwhile : (Database → Database) → Sql (Unit {0})
meanwhile others s = (ok tt, record s { db = others s.db })

unfoldable pub run_sql : {A : Type 0} → Sql A → Session → Result A × Session
unfolding run statement query transaction meanwhile
run_sql m s = m s
