-- ===== src/Service/Worker/Persistence.antt =====
-- A result that is persisted (internal/repository/timer_execution_repo.go), and the message.
use chrono_flow.Common.{
  ltb, ◌==◌, if◌then◌else◌, ==→eq, ℕ, String, ◌≡◌, refl, ap, inl, inr, Bool, true, false, not, ◌&&◌,
  Option, none, some, arith,
}
use chrono_flow.Effect.{continue, ◌>>=◌, ◌>>◌, pure, run, Result, ok, err}
use chrono_flow.Effect.Yields.{
  Yields-pure, Yields-keeps, Yields-bind, Yields-wrap_error, Yields-when, Yields,
}
use chrono_flow.Model.Timer.{Time}
use chrono_flow.Model.Execution.{TimerExecution}
use chrono_flow.Database.{Sql, statement, transaction, Database, Session}
use chrono_flow.Database.SessionLaws.{statement_cases, On}
use chrono_flow.Repository.Executions.{
  is_held, succeeded, complete_success, failed_attempt, retry_time, complete_failure,
}
use chrono_flow.Repository.Invariant.{Invariant}
use chrono_flow.Service.Worker.{is_settled}
use chrono_flow.Service.Worker.Settled.{Settled, update_executions-settles, create_event-Settled}
use chrono_flow.Model.Outbox.{OutboxEvent}
use chrono_flow.Repository.Events.{create_event}

-- An acknowledgement finds the message settled.
abbrev pub AckSafe : ℕ → Result Bool → Session → Type 0
AckSafe id (ok true) s = Settled id s.db
AckSafe id _ s = Unit {0}

abbrev pub FailureSafe : ℕ → Result (Bool × Bool) → Session → Type 0
FailureSafe id (ok (updated, retry)) s = AckSafe id (ok updated) s
FailureSafe id (err e) s = Unit {0}

-- What an UPDATE has settled when it has affected one row.
abbrev pub CountSafe : ℕ → Result ℕ → Session → Type 0
CountSafe id (ok n) s = n ≡ 1 → Settled id s.db
CountSafe id (err e) s = Unit {0}

counted :
    (id : ℕ) (run : Database → ℕ × Database)
    → Yields (On Invariant) (statement run) (λ r s. r ≡ ok 1 → Settled id s.db)
    → Yields (On Invariant) (statement run) (CountSafe id)
counted id run h = record { at = λ s p. go (statement run s).0 (statement run s).1 (h.at s p) }
  where
    go : (r : Result ℕ) (s : Session) → (r ≡ ok 1 → Settled id s.db) → CountSafe id r s
    go (ok n) s k = λ e. k (ap ok e)
    go (err e) s k = tt

held_target :
    (id : ℕ) (owner run_token : String) (e : TimerExecution)
    → is_held id owner run_token e ≡ true
    → e.id ≡ id
unfolding is_held
held_target id owner run_token e h = ground arith

succeeded_settled :
    (at code : ℕ) (body : String) (duration : ℕ) (e : TimerExecution)
    → ((succeeded at code body duration e).id ≡ e.id)
      × (is_settled (succeeded at code body duration e) ≡ true)
unfolding succeeded
succeeded_settled at code body duration e = (refl, refl)

failed_settled :
    (at code : ℕ) (body error : String) (duration : ℕ) (r : Option Time) (e : TimerExecution)
    → ((failed_attempt at code body error duration r e).id ≡ e.id)
      × (is_settled (failed_attempt at code body error duration r e) ≡ true)
unfolding failed_attempt
failed_settled at code body error duration none e = (refl, refl)
failed_settled at code body error duration (some t) e = (refl, refl)

one_settles : (id n : ℕ) (s : Session) → CountSafe id (ok n) s → AckSafe id (ok (n == 1)) s
one_settles id n s k = go (n == 1) (λ e. k (==→eq n 1 e))
  where
    go : (b : Bool) → (b ≡ true → Settled id s.db) → AckSafe id (ok b) s
    go true k = k refl
    go false k = tt

pub complete_success-AckSafe :
    (id : ℕ) (owner run_token : String) (at code : ℕ) (body : String) (duration : ℕ)
    → Yields (On Invariant) (complete_success id owner run_token at code body duration) (AckSafe id)
unfolding complete_success
complete_success-AckSafe id owner run_token at code body duration =
    Yields-bind (CountSafe id)
      (Yields-wrap_error _
        (counted id _ (
          update_executions-settles id (is_held id owner run_token) (held_target id owner run_token)
            (succeeded at code body duration) (λ e. (succeeded_settled at code body duration e).0)
            (λ e. (succeeded_settled at code body duration e).1)))
        (λ e s q. tt))
      (λ e s q. tt) (λ n. Yields-pure (n == 1) (one_settles id n))

-- COMMIT leaves what the body has settled.
pub transaction-AckSafe :
    {P : Session → Type 0} (id : ℕ) {body : Sql Bool}
    → Yields P body (AckSafe id)
    → Yields P (transaction body) (AckSafe id)
unfolding transaction
transaction-AckSafe {P} id {body} h = record {
  at = λ s p. go s ((body >>= λ a. statement (λ db. (a, db))) s) (committed.at s p);
}
  where
    commit : (a : Bool) → Yields (AckSafe id (ok a)) (statement (λ db. (a, db))) (AckSafe id)
    commit true = record {
      at = λ s p. elim (statement_cases (λ db. (true, db)) s) [
        | inl c ↦ rw c.0 tt
        | inr c ↦ rw (c.0, c.1) p
      ];
    }
    commit false = record {
      at = λ s p. elim (statement_cases (λ db. (false, db)) s) [
        | inl c ↦ rw c.0 tt
        | inr c ↦ rw c.0 tt
      ];
    }

    committed : Yields P (body >>= λ a. statement (λ db. (a, db))) (AckSafe id)
    committed = Yields-bind (AckSafe id) h (λ e s q. tt) commit

    go :
        (s : Session) (r : Result Bool × Session)
        → AckSafe id r.0 r.1
        → AckSafe id
            (continue {C = Result Bool × Session} r
              (λ a s'. (ok a, s'))
              (λ e s'. (err e, record s' { db = s.db }))).0
            (continue {C = Result Bool × Session} r
              (λ a s'. (ok a, s'))
              (λ e s'. (err e, record s' { db = s.db }))).1
    go s (ok a, s') q = q
    go s (err e, s') q = tt

after_update :
    (id n : ℕ) (retry : Bool) (event : OutboxEvent)
    → Yields
        (CountSafe id (ok n))
        (if not (n == 1)
          then pure false
          else if not retry
          then pure true
          else (create_event event >> pure true))
        (AckSafe id)
after_update id n retry event = go (n == 1) retry (λ e. ==→eq n 1 e)
  where
    noted : Yields (On (Settled id)) (create_event event >> pure true) (AckSafe id)
    noted =
        Yields-bind (λ r. On (Settled id)) (Yields-keeps (create_event-Settled id event))
          (λ e s q. tt) (λ done. Yields-pure true (λ s q. q.holds))

    go :
        (b retry : Bool)
        → (b ≡ true → n ≡ 1)
        → Yields
            (CountSafe id (ok n))
            (if not b
              then pure false
              else if not retry
              then pure true
              else (create_event event >> pure true))
            (AckSafe id)
    go false retry k = Yields-pure false (λ s q. tt)
    go true false k = Yields-pure true (λ s q. q (k refl))
    go true true k = Yields-when (On (Settled id)) (λ s q. record { holds = q (k refl) }) noted

pub complete_failure-FailureSafe :
    (execution : TimerExecution) (owner run_token : String) (at code : ℕ) (body error : String)
    (duration retry_at : ℕ) (retryable : Bool)
    → Yields
        (On Invariant)
        (complete_failure execution owner run_token at code body error duration retry_at retryable)
        (FailureSafe execution.id)
unfolding complete_failure
complete_failure-FailureSafe execution owner run_token at code body error duration retry_at
      retryable =
    let id = execution.id in
    let retry = retryable && ltb execution.attempt execution.max_attempts in
    Yields-bind (AckSafe id)
      (Yields-wrap_error _
        (transaction-AckSafe id (
          Yields-bind (CountSafe id)
            (counted id _ (
              update_executions-settles id (is_held id owner run_token)
                (held_target id owner run_token)
                (failed_attempt at code body error duration (retry_time retry retry_at))
                (λ e. (failed_settled at code body error duration (retry_time retry retry_at) e).0)
                (λ e.
                  (failed_settled at code body error duration (retry_time retry retry_at) e).1)))
            (λ e s q. tt) (λ n. after_update id n retry _)))
        (λ e s q. tt))
      (λ e s q. tt) (λ updated. Yields-pure (updated, updated && retry) (λ s q. q))
