-- ===== src/Repository/Invariant.antt =====
-- The invariant of the three tables of internal/repository.
pub mod Growth
pub mod Cleanup
use chrono_flow.Effect.{Result, ok, err}
use chrono_flow.Database.RowLaws.{All-update_where}
use chrono_flow.Repository.Events.{insert_event, from_result, create_event}
use chrono_flow.Effect.Keeps.{Keeps-pure, Keeps-raise, Keeps-bind, Keeps}
use chrono_flow.Database.SessionLaws.{Keeps-statement, On}
use chrono_flow.Repository.Executions.{update_executions, same_slot}
use chrono_flow.Common.{
  is_null, Bool-cases, any, All, ℕ, ◌≤◌, ◌<◌, ◌≡◌, refl, inl, inr, Bool, true, false, none, List,
  [], ◌∷◌,
}
use chrono_flow.Model.Timer.{Time}
use chrono_flow.Model.Execution.{is_pending, is_running, is_retry_wait, is_terminal, TimerExecution}
use chrono_flow.Model.Outbox.{event_id_eq, OutboxEvent}
use chrono_flow.Database.{update_where, statement, Database, Session}

-- A lease is held exactly while running, a retry has its time, and an end has been recorded.
pub record IsConsistent (e : TimerExecution) : Type 0 where
  pub leased : is_running e.status ≡ true → (is_null e.lease_until ≡ false) × (0 < e.attempt)
  pub released :
      is_running e.status ≡ false
      → (e.lease_until ≡ none) × (e.lease_owner ≡ "") × (e.run_token ≡ "")
  pub waiting : is_retry_wait e.status ≡ true → is_null e.next_attempt_at ≡ false
  pub ended : is_terminal e ≡ true → is_null e.finished_at ≡ false
  pub unstarted : is_pending e.status ≡ true → e.attempt ≡ 0

-- What no operation changes in a row, and an attempt count that does not fall.
pub record SameExecution (e f : TimerExecution) : Type 0 where
  pub same_id : f.id ≡ e.id
  pub same_timer : f.timer_id ≡ e.timer_id
  pub same_time : f.scheduled_at ≡ e.scheduled_at
  pub same_limit : f.max_attempts ≡ e.max_attempts
  pub same_request : f.request_snapshot ≡ e.request_snapshot
  pub counted : e.attempt ≤ f.attempt

-- Ids fall along a table, newest first, below its AUTO_INCREMENT counter.
abbrev pub Below : ℕ → List TimerExecution → Type 0
Below n [] = Unit {0}
Below n (e ∷ es) = (e.id < n) × Below e.id es

abbrev pub Slotted : List TimerExecution → Type 0
Slotted [] = Unit {0}
Slotted (e ∷ es) = (any (same_slot e.timer_id e.scheduled_at) es ≡ false) × Slotted es

-- What holds of the executions between two statements, in a transaction or not.
pub record Invariant (db : Database) : Type 0 where
  pub consistent : All IsConsistent db.executions
  pub numbered : Below db.next_execution_id db.executions
  pub slotted : Slotted db.executions

module _ (p : TimerExecution → Bool) (f : TimerExecution → TimerExecution)
    (same : (e : TimerExecution) → SameExecution e (f e)) where
  Below-update_where :
      (n : ℕ) (es : List TimerExecution) → Below n es → Below n (update_where p f es)
  unfolding update_where
  Below-update_where n [] b = tt
  Below-update_where n (e ∷ es) b = elim (Bool-cases (p e)) [
    | inl t ↦ rw (t, (same e).same_id) (b.0, Below-update_where e.id es b.1)
    | inr t ↦ rw t (b.0, Below-update_where e.id es b.1)
  ]

  same_slot-kept :
      (timer_id : ℕ) (at : Time) (e : TimerExecution)
      → same_slot timer_id at (f e) ≡ same_slot timer_id at e
  unfolding same_slot
  same_slot-kept timer_id at e = rw ((same e).same_timer, (same e).same_time) refl

  any-update_where :
      (timer_id : ℕ) (at : Time) (es : List TimerExecution)
      → any (same_slot timer_id at) (update_where p f es) ≡ any (same_slot timer_id at) es
  unfolding update_where
  any-update_where timer_id at [] = refl
  any-update_where timer_id at (e ∷ es) = elim (Bool-cases (p e)) [
    | inl t ↦ rw (t, same_slot-kept timer_id at e, any-update_where timer_id at es) refl
    | inr t ↦ rw (t, any-update_where timer_id at es) refl
  ]

  Slotted-update_where : (es : List TimerExecution) → Slotted es → Slotted (update_where p f es)
  unfolding update_where
  Slotted-update_where [] h = tt
  Slotted-update_where (e ∷ es) h = elim (Bool-cases (p e)) [
    | inl t ↦
        rw
          (
            t,
            (same e).same_timer,
            (same e).same_time,
            any-update_where e.timer_id e.scheduled_at es,
          )
          (h.0, Slotted-update_where es h.1)
    | inr t ↦
        rw (t, any-update_where e.timer_id e.scheduled_at es) (h.0, Slotted-update_where es h.1)
  ]

  pub update_executions-Invariant :
      ((e : TimerExecution) → p e ≡ true → IsConsistent e → IsConsistent (f e))
      → Keeps (On Invariant) (statement (update_executions p f))
  unfolding update_executions
  update_executions-Invariant k = Keeps-statement (update_executions p f) λ db h. record {
    consistent = All-update_where IsConsistent p f db.executions k h.consistent;
    numbered = Below-update_where db.next_execution_id db.executions h.numbered;
    slotted = Slotted-update_where db.executions h.slotted;
  }

insert_event-Invariant :
    (event : OutboxEvent) (db : Database) → Invariant db → Invariant (insert_event event db).1
unfolding insert_event
insert_event-Invariant event db h =
    elim (Bool-cases (any (λ o. event_id_eq o.event_id event.event_id) db.outbox)) [
      | inl e ↦ rw e h
      | inr e ↦
          rw e (record { consistent = h.consistent; numbered = h.numbered; slotted = h.slotted })
    ]

pub from_result-Keeps : {P : Session → Type 0} {A : Type 0} (r : Result A) → Keeps P (from_result r)
from_result-Keeps (ok a) = Keeps-pure a
from_result-Keeps (err e) = Keeps-raise e

pub create_event-Invariant : (event : OutboxEvent) → Keeps (On Invariant) (create_event event)
unfolding create_event
create_event-Invariant event =
    Keeps-bind (Keeps-statement (insert_event event) (insert_event-Invariant event))
      from_result-Keeps
