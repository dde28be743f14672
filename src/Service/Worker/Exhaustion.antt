-- ===== src/Service/Worker/Exhaustion.antt =====
-- An execution whose callback fails again and again: process of internal/service/stream_worker.go
-- under the retries of internal/repository/timer_execution_repo.go.
use chrono_flow.Common.{
  ltb, pos_part, length, ℕ, ◌+◌, ◌≤◌, ◌<◌, String, ◌≡◌, ◌∙◌, sym, ap, if◌then◌else◌, Bool-cases,
  inl, inr, true, false, some, List, [], ◌∷◌, arith,
}
use mathlib.Core.Path.{subst}
use chrono_flow.Effect.{Error}
use chrono_flow.Model.Timer.{Time}
use chrono_flow.Model.Execution.{
  TimerExecution, CallbackSnapshot, ExecutionStatus, failed, retry_wait,
}
use chrono_flow.Model.Outbox.{event_id_eq, retry_id}
use chrono_flow.Database.{Database, Session}
use chrono_flow.Repository.Events.{new_execution_outbox_event}
use chrono_flow.Repository.Executions.{is_claimable}
use chrono_flow.Repository.Executions.Wins.{IsUnannounced}
use chrono_flow.Repository.Executions.OneRow.{quiet, Row}
use chrono_flow.Service.Worker.{is_malformed, is_retryable_callback_failure, process, Surroundings}
use chrono_flow.Service.Worker.Quiet.{IsQuiet}
use chrono_flow.Service.Worker.Failing.{failing_process, retry_at, IsFailureOf}
use chrono_flow.Config.{WorkerConfig}
use chrono_flow.Repository.Schedule.{Json}
use chrono_flow.Service.Stream.Messages.{StreamMessage}

-- A message for the execution and what surrounds the work on it.
pub record Attempt : Type 0 where
  pub msg : StreamMessage
  pub world : Surroundings
  pub run_token : String
  pub failure : Error

module _ (json : Json) (cfg : WorkerConfig) (owner : String) (text_of : Error → String) where
  abbrev pub work_all : List Attempt → Session → Session
  work_all [] s = s
  work_all (a ∷ attempts) s = work_all attempts (process json cfg owner text_of a.world a.msg s).1

  -- An attempt at the execution `id` whose failure can be retried.
  pub record IsFailing (id : ℕ) (snapshot : CallbackSnapshot) (a : Attempt) : Type 0 where
    pub sound : is_malformed a.msg ≡ false
    pub names : pos_part a.msg.execution_id ≡ id
    pub calm : IsQuiet a.world a.run_token
    pub told : (a.world.execute snapshot id).error ≡ some a.failure
    pub retryable : is_retryable_callback_failure (a.world.execute snapshot id).response_code ≡ true

  abbrev pub AllFailing : ℕ → CallbackSnapshot → List Attempt → Type 0
  AllFailing id snapshot [] = Unit {0}
  AllFailing id snapshot (a ∷ attempts) = IsFailing id snapshot a × AllFailing id snapshot attempts

  -- Each attempt starts when the backoff of the one before, the `n`-th, is over.
  abbrev pub InTime : ℕ → Attempt → List Attempt → Type 0
  InTime n a [] = Unit {0}
  InTime n a (b ∷ attempts) =
      (retry_at json cfg owner text_of a.world n ≤ b.world.started_at) × InTime (n + 1) b attempts

  -- No retry after a later attempt than the `n`-th has been announced yet.
  abbrev pub Unannounced : ℕ → ℕ → Database → Type 0
  Unannounced id n db = (k : ℕ) → n < k → IsUnannounced id k db.outbox

  abbrev pub status_after : TimerExecution → ExecutionStatus
  status_after r = if ltb r.attempt r.max_attempts then retry_wait else failed

  waiting-claimable :
      (now at : Time) (r : TimerExecution)
      → r.status ≡ retry_wait
      → r.next_attempt_at ≡ some at
      → at ≤ now
      → is_claimable now r ≡ true
  unfolding is_claimable
  waiting-claimable now at r s n le = rw (s, n) (ground arith)

  -- The retry that has been announced is of an earlier attempt than those that come.
  other_retry : (id n k : ℕ) → n < k → event_id_eq (retry_id id n) (retry_id id k) ≡ false
  other_retry id n k lt = ground arith

  module _ (a : Attempt) (e r : TimerExecution) (snapshot : CallbackSnapshot) (db after : Database)
      (f : IsFailing e.id snapshot a)
      (end : IsFailureOf json cfg owner text_of a.world e
        (a.world.execute snapshot e.id)
        a.failure
        r
        db
        after) where
    failed_status : r.status ≡ status_after r
    failed_status = elim (Bool-cases (ltb (e.attempt + 1) e.max_attempts)) [
      | inl t ↦ rw (end.counted, end.limit, t) (rw (f.retryable, t) at end.continues).0
      | inr t ↦ rw (end.counted, end.limit, t) (rw (f.retryable, t) at end.continues).0
    ]

    claimable_again :
        (now : Time)
        → e.attempt + 1 < e.max_attempts
        → retry_at json cfg owner text_of a.world (e.attempt + 1) ≤ now
        → is_claimable now r ≡ true
    claimable_again now lt le =
        let t : ltb (e.attempt + 1) e.max_attempts ≡ true = ground arith in
        let (s, n) = rw (f.retryable, t) at end.continues in
        waiting-claimable now _ r s n (rw end.counted le)

    Unannounced-still :
        e.attempt + 1 < e.max_attempts
        → Unannounced e.id e.attempt db
        → Unannounced r.id r.attempt after
    unfolding new_execution_outbox_event
    Unannounced-still lt new k later =
        let t : ltb (e.attempt + 1) e.max_attempts ≡ true = ground arith in
        let (n, outbox) = rw (f.retryable, t) at end.announces in
        let before : IsUnannounced r.id k db.outbox =
          subst (λ id. IsUnannounced id k db.outbox) (sym end.same)
            (new k (omega (arith, later, end.counted))) in
        rw (outbox, other_retry r.id r.attempt k later) before

  -- From a table with distinct ids, without failing statements and while nobody else writes: an
  -- execution that may be claimed, whose snapshot can be decoded and no retry of which after a later
  -- attempt is in the outbox yet, and whose callback fails at every attempt with a code that is tried
  -- again (no response, 408, 425, 429, or 500 and above), waits for its retry as long as the attempts
  -- are below the maximum, and is FAILED after the last of them. The messages of the attempts are well
  -- formed and name the execution, and each attempt starts when the backoff of the one before is over.
  pub work_all_exhausts :
      (a : Attempt) (attempts : List Attempt) (snapshot : CallbackSnapshot) (db : Database)
      (e : TimerExecution)
      → Row e.id e db
      → is_claimable a.world.started_at e ≡ true
      → json.decode_snapshot e.request_snapshot ≡ some snapshot
      → AllFailing e.id snapshot (a ∷ attempts)
      → InTime (e.attempt + 1) a attempts
      → Unannounced e.id e.attempt db
      → e.attempt + length (a ∷ attempts) ≤ e.max_attempts
      → (r : TimerExecution) × Row e.id r (work_all (a ∷ attempts) (quiet db)).db
        × (r.attempt ≡ e.attempt + length (a ∷ attempts))
        × (r.status ≡ (if ltb r.attempt e.max_attempts then retry_wait else failed))
  work_all_exhausts a [] snapshot db e row due decoded (f, rest) times new room =
      let (after, answer, (r, there, end)) =
        failing_process json cfg owner text_of a.world a.msg a.run_token snapshot a.failure db
          {e = e} f.sound (rw f.names row) due decoded f.calm f.told (new _ (omega arith)) in
      rw (answer, work_all)
        (
          r,
          there,
          omega (arith, end.counted),
          rw end.limit at (failed_status a e r snapshot db after f end),
        )
  work_all_exhausts a (b ∷ attempts) snapshot db e row due decoded (f, rest) times new room =
      let (after, answer, (r, there, end)) =
        failing_process json cfg owner text_of a.world a.msg a.run_token snapshot a.failure db
          {e = e} f.sound (rw f.names row) due decoded f.calm f.told (new _ (omega arith)) in
      let below : e.attempt + 1 < e.max_attempts = omega (arith, room) in
      let back = sym end.same in
      let (last, found, counted, status) =
        work_all_exhausts b attempts snapshot after r (subst (λ id. Row id r after) back there)
          (claimable_again a e r snapshot db after f end b.world.started_at below times.0)
          (ap json.decode_snapshot end.request ∙ decoded)
          (subst (λ id. AllFailing id snapshot (b ∷ attempts)) back rest)
          (subst (λ n. InTime (n + 1) b attempts) (sym end.counted) times.1)
          (Unannounced-still a e r snapshot db after f end below new)
          (omega (arith, room, end.counted, end.limit)) in
      rw (answer, work_all)
        (
          last,
          subst (λ id. Row id last (work_all (b ∷ attempts) (quiet after)).db) end.same found,
          omega (arith, counted, end.counted),
          subst (λ m. last.status ≡ (if ltb last.attempt m then retry_wait else failed)) end.limit
              status,
        )
