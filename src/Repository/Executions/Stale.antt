-- ===== src/Repository/Executions/Stale.antt =====
-- The conditions on lease_owner and run_token in internal/repository/timer_execution_repo.go, for a
-- worker that lost its lease.
use chrono_flow.Common.{
  ltb, ◌==◌, ==→eq, Bool-cases, All, ℕ, String, ◌≡◌, refl, ◌≢◌, inl, inr, Bool, true, false, ◌&&◌,
  ◌||◌, List, [], ◌∷◌, arith, eq_iff,
}
use chrono_flow.Effect.{Result, ok, err}
use chrono_flow.Model.Timer.{Time}
use chrono_flow.Model.Execution.{TimerExecution}
use chrono_flow.Database.{count_where, run_sql, Database, Session}
use chrono_flow.Database.RowLaws.{update_where_none}
use chrono_flow.Repository.Executions.{
  update_executions, is_held, renewed, heartbeat, succeeded, complete_success, failed_attempt,
  retry_time, complete_failure,
}

-- No row of the execution carries the token.
abbrev pub Revoked : ℕ → String → List TimerExecution → Type 0
Revoked id run_token es = All (λ e. e.id ≡ id → e.run_token ≢ run_token) es

not_held :
    (id : ℕ) (owner run_token : String) (e : TimerExecution)
    → (e.id ≡ id → e.run_token ≢ run_token)
    → is_held id owner run_token e ≡ false
unfolding is_held
not_held id owner run_token e h = elim (Bool-cases (e.id == id)) [
  | inl t ↦ ground (arith, eq_iff e.run_token run_token, h (==→eq _ _ t))
  | inr f ↦ rw f refl
]

count-held :
    (id : ℕ) (owner run_token : String) (es : List TimerExecution)
    → Revoked id run_token es
    → count_where (is_held id owner run_token) es ≡ 0
unfolding count_where
count-held id owner run_token [] h = refl
count-held id owner run_token (e ∷ es) h =
    rw (not_held id owner run_token e h.0) (omega (arith, count-held id owner run_token es h.1))

-- The result of a write that reports whether a row was affected.
abbrev pub reports : Result Bool → Bool
reports (ok b) = b
reports (err e) = false

abbrev pub reports_update : Result (Bool × Bool) → Bool
reports_update (ok (updated, retry)) = updated || retry
reports_update (err e) = false

module _ (id : ℕ) (owner run_token : String) (f : TimerExecution → TimerExecution) (db : Database)
    (h : Revoked id run_token db.executions) where
  update_revoked : update_executions (is_held id owner run_token) f db ≡ (0, db)
  unfolding update_executions
  update_revoked =
      let none_left = count-held id owner run_token db.executions h in
      rw (none_left, update_where_none (is_held id owner run_token) f db.executions none_left) refl

module _ (id : ℕ) (owner run_token : String) (s : Session)
    (h : Revoked id run_token s.db.executions) where
  heartbeat_revoked :
      (t : Time)
      → (reports (heartbeat id owner run_token t s).0 ≡ false)
        × ((heartbeat id owner run_token t s).1.db ≡ s.db)
  unfolding heartbeat run_sql
  heartbeat_revoked t = go s.db s.faults h
    where
      go :
          (db : Database) (fs : List Bool)
          → Revoked id run_token db.executions
          → let r = heartbeat id owner run_token t (record { db = db; faults = fs }) in
            (reports r.0 ≡ false) × (r.1.db ≡ db)
      go db [] h = let e = update_revoked id owner run_token (renewed t) db h in rw e (refl, refl)
      go db (true ∷ fs) h = (refl, refl)
      go db (false ∷ fs) h =
          let e = update_revoked id owner run_token (renewed t) db h in rw e (refl, refl)

  complete_success_revoked :
      (finished_at code : ℕ) (body : String) (duration : ℕ)
      → (reports (complete_success id owner run_token finished_at code body duration s).0 ≡ false)
        × ((complete_success id owner run_token finished_at code body duration s).1.db ≡ s.db)
  unfolding complete_success run_sql
  complete_success_revoked finished_at code body duration = go s.db s.faults h
    where
      go :
          (db : Database) (fs : List Bool)
          → Revoked id run_token db.executions
          → let r =
              complete_success id owner run_token finished_at code body duration
                (record { db = db; faults = fs }) in
            (reports r.0 ≡ false) × (r.1.db ≡ db)
      go db [] h =
          let e =
            update_revoked id owner run_token (succeeded finished_at code body duration) db h in
          rw e (refl, refl)
      go db (true ∷ fs) h = (refl, refl)
      go db (false ∷ fs) h =
          let e =
            update_revoked id owner run_token (succeeded finished_at code body duration) db h in
          rw e (refl, refl)

module _ (execution : TimerExecution) (owner run_token : String) (s : Session)
    (h : Revoked execution.id run_token s.db.executions) where
  complete_failure_revoked :
      (finished_at code : ℕ) (body error : String) (duration retry_at : ℕ) (retryable : Bool)
      → (reports_update
            (complete_failure execution owner run_token finished_at code body error duration
              retry_at retryable s).0
          ≡ false)
        × ((complete_failure execution owner run_token finished_at code body error duration retry_at
              retryable s).1.db
            ≡ s.db)
  unfolding complete_failure run_sql
  complete_failure_revoked finished_at code body error duration retry_at retryable =
      go s.db s.faults h
    where
      unchanged :
          (db : Database)
          → Revoked execution.id run_token db.executions
          → update_executions
              (is_held execution.id owner run_token)
              (failed_attempt finished_at code body error duration
                (retry_time (retryable && ltb execution.attempt execution.max_attempts) retry_at))
              db
            ≡ (0, db)
      unchanged = update_revoked execution.id owner run_token _

      go :
          (db : Database) (fs : List Bool)
          → Revoked execution.id run_token db.executions
          → let r =
              complete_failure execution owner run_token finished_at code body error duration
                retry_at retryable
                (record { db = db; faults = fs }) in
            (reports_update r.0 ≡ false) × (r.1.db ≡ db)
      go db [] h = rw (unchanged db h) (refl, refl)
      go db (true ∷ fs) h = (refl, refl)
      go db (false ∷ []) h = rw (unchanged db h) (refl, refl)
      go db (false ∷ true ∷ fs) h = rw (unchanged db h) (refl, refl)
      go db (false ∷ false ∷ fs) h = rw (unchanged db h) (refl, refl)

-- A worker whose token no row of the execution carries changes nothing by a heartbeat, a success or
-- a failure, and each of the three reports that it did not update the row, whichever statements fail.
pub stale_writes_refused :
    (execution : TimerExecution) (owner run_token : String) (s : Session)
    → Revoked execution.id run_token s.db.executions
    → (t finished_at code : ℕ) (body error : String) (duration retry_at : ℕ) (retryable : Bool)
    → let beat = heartbeat execution.id owner run_token t s in
      let success =
        complete_success execution.id owner run_token finished_at code body duration s in
      let failure =
        complete_failure execution owner run_token finished_at code body error duration retry_at
          retryable s in
      ((reports beat.0 ≡ false) × (beat.1.db ≡ s.db))
      × ((reports success.0 ≡ false) × (success.1.db ≡ s.db))
      × ((reports_update failure.0 ≡ false) × (failure.1.db ≡ s.db))
stale_writes_refused execution owner run_token s h t finished_at code body error duration retry_at
      retryable =
    (
      heartbeat_revoked execution.id owner run_token s h t,
      complete_success_revoked execution.id owner run_token s h finished_at code body duration,
      complete_failure_revoked execution owner run_token s h finished_at code body error duration
          retry_at retryable,
    )
