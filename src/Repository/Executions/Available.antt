-- ===== src/Repository/Executions/Available.antt =====
-- Claim of internal/repository/timer_execution_repo.go on a row that is due.
use chrono_flow.Common.{◌==◌, ℕ, ◌+◌, String, ◌≡◌, refl, true, some, []}
use chrono_flow.Model.Timer.{Time}
use chrono_flow.Model.Execution.{TimerExecution}
use chrono_flow.Database.{find_where, Database}
use chrono_flow.Repository.Invariant.{Below}
use chrono_flow.Repository.Executions.{is_claimable, claimed, claim}
use chrono_flow.Repository.Executions.Wins.{claim_wins}
use chrono_flow.Effect.{ok}

-- Without faults and other sessions, a claim of an execution that exists and is claimable wins, and
-- hands back the row with the new lease and one more attempt: PENDING and due, waiting for a retry
-- that is due, or running beyond its lease.
claim_available :
    (id : ℕ) (owner run_token : String) (now : Time) (ttl : ℕ) (db : Database) {e : TimerExecution}
    → Below db.next_execution_id db.executions
    → find_where (λ r. r.id == id) db.executions ≡ some e
    → is_claimable now e ≡ true
    → (claim (λ db. db) id owner run_token now ttl (record { db = db; faults = [] })).0
      ≡ ok (some (claimed owner run_token now (now + ttl) e), true)
claim_available id owner run_token now ttl db {e} b f c =
    let (after, answer, row, same) =
      claim_wins id owner run_token (λ t. t) now ttl {e = e} {db = db} (λ t. refl)
        (record { below = b; here = f }) c in
    rw answer refl
