-- ===== src/Repository/Executions/Consistency.antt =====
-- What the status of an execution says of its other columns, and the worker's statements
-- (internal/repository/timer_execution_repo.go).
use chrono_flow.Repository.Invariant.{
  update_executions-Invariant, create_event-Invariant, IsConsistent, SameExecution, Invariant,
}
use chrono_flow.Effect.Keeps.{Keeps-bind, Keeps-wrap_error, Keeps}
use chrono_flow.Database.SessionLaws.{Keeps-meanwhile, On, sql_rules}
use chrono_flow.Database.{statement, Database}
use chrono_flow.Common.{ℕ, ◌+◌, String, ◌≡◌, Bool, true, Option, none, some, arith}
use chrono_flow.Model.Timer.{Time}
use chrono_flow.Model.Execution.{TimerExecution}
use chrono_flow.Repository.Executions.{
  update_executions, can_claim, claimed, claim, is_held, renewed, heartbeat, succeeded,
  complete_success, failed_attempt, complete_failure,
}
use chrono_flow.Effect.{wrap_error}

claimed-IsConsistent :
    (owner run_token : String) (now lease_until : Time) (e : TimerExecution)
    → IsConsistent (claimed owner run_token now lease_until e)
unfolding claimed
claimed-IsConsistent owner run_token now lease_until e = ground arith

succeeded-IsConsistent :
    (finished_at code : ℕ) (body : String) (duration : ℕ) (e : TimerExecution)
    → IsConsistent (succeeded finished_at code body duration e)
unfolding succeeded
succeeded-IsConsistent finished_at code body duration e = ground arith

failed_attempt-IsConsistent :
    (finished_at code : ℕ) (body error : String) (duration : ℕ) (r : Option Time)
    (e : TimerExecution)
    → IsConsistent (failed_attempt finished_at code body error duration r e)
unfolding failed_attempt
failed_attempt-IsConsistent finished_at code body error duration none e = ground arith
failed_attempt-IsConsistent finished_at code body error duration (some t) e = ground arith

renewed-IsConsistent :
    (id : ℕ) (owner run_token : String) (t : Time) (e : TimerExecution)
    → is_held id owner run_token e ≡ true
    → IsConsistent e
    → IsConsistent (renewed t e)
unfolding is_held renewed
renewed-IsConsistent id owner run_token t e r c = ground arith

claimed-SameExecution :
    (owner run_token : String) (now lease_until : Time) (e : TimerExecution)
    → SameExecution e (claimed owner run_token now lease_until e)
unfolding claimed
claimed-SameExecution owner run_token now lease_until e = ground arith

succeeded-SameExecution :
    (finished_at code : ℕ) (body : String) (duration : ℕ) (e : TimerExecution)
    → SameExecution e (succeeded finished_at code body duration e)
unfolding succeeded
succeeded-SameExecution finished_at code body duration e = ground arith

failed_attempt-SameExecution :
    (finished_at code : ℕ) (body error : String) (duration : ℕ) (r : Option Time)
    (e : TimerExecution)
    → SameExecution e (failed_attempt finished_at code body error duration r e)
unfolding failed_attempt
failed_attempt-SameExecution finished_at code body error duration none e = ground arith
failed_attempt-SameExecution finished_at code body error duration (some t) e = ground arith

renewed-SameExecution : (t : Time) (e : TimerExecution) → SameExecution e (renewed t e)
unfolding renewed
renewed-SameExecution t e = ground arith

module _ (id : ℕ) (owner run_token : String) where
  pub claim_update-Invariant :
      (now until : Time)
      → Keeps (On Invariant) (
          wrap_error "claim execution"
            (statement (update_executions (can_claim id now) (claimed owner run_token now until))))
  claim_update-Invariant now until = Keeps-wrap_error "claim execution" (
      update_executions-Invariant (can_claim id now) (claimed owner run_token now until)
        (claimed-SameExecution owner run_token now until)
        (λ e t c. claimed-IsConsistent owner run_token now until e))

  pub claim-Invariant :
      (others : Database → Database)
      → ((db : Database) → Invariant db → Invariant (others db))
      → (now : Time) (ttl : ℕ) → Keeps (On Invariant) (claim others id owner run_token now ttl)
  unfolding claim
  claim-Invariant others k now ttl =
      Keeps-bind (claim_update-Invariant now (now + ttl))
        λ affected. Keeps-bind (Keeps-meanwhile others k) (λ _. search sql_rules)

  pub heartbeat-Invariant : (t : Time) → Keeps (On Invariant) (heartbeat id owner run_token t)
  unfolding heartbeat
  heartbeat-Invariant t =
      search (sql_rules, update_executions-Invariant, renewed-SameExecution, renewed-IsConsistent)
        depth 12

  pub complete_success-Invariant :
      (finished_at code : ℕ) (body : String) (duration : ℕ)
      → Keeps (On Invariant) (complete_success id owner run_token finished_at code body duration)
  unfolding complete_success
  complete_success-Invariant finished_at code body duration =
      search
        (sql_rules, update_executions-Invariant, succeeded-SameExecution, succeeded-IsConsistent)
        depth 12

pub complete_failure-Invariant :
    (execution : TimerExecution) (owner run_token : String) (finished_at code : ℕ)
    (body error : String) (duration retry_at : ℕ) (retryable : Bool)
    → Keeps (On Invariant) (
        complete_failure execution owner run_token finished_at code body error duration retry_at
          retryable)
unfolding complete_failure
complete_failure-Invariant execution owner run_token finished_at code body error duration retry_at
      retryable =
    search
      (
        sql_rules, update_executions-Invariant, failed_attempt-SameExecution,
        failed_attempt-IsConsistent, create_event-Invariant,
      )
      depth 12
