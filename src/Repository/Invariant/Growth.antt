-- ===== src/Repository/Invariant/Growth.antt =====
-- The invariant and the statements of the scheduler, the reconciler and the dispatcher:
-- internal/repository/scheduler_repo.go, recovery_repo.go and outbox_repo.go.
use chrono_flow.Common.{
  Bool-cases, any, ℤ, ℕ, ◌+◌, String, inl, inr, Bool, Option, none, some, List, [], ◌∷◌, arith,
}
use chrono_flow.Effect.Keeps.{Keeps-bind, Keeps-wrap_error, Keeps}
use chrono_flow.Database.{statement, Database}
use chrono_flow.Database.SessionLaws.{Keeps-statement, Keeps-transaction, On, sql_rules}
use chrono_flow.Model.Timer.{Time, TimerDefinition}
use chrono_flow.Model.Execution.{TimerExecution}
use chrono_flow.Model.Outbox.{OutboxEvent, EventId}
use chrono_flow.Repository.Executions.{same_slot}
use chrono_flow.Repository.Schedule.{
  DueTimerResolver, new_execution, insert_execution, announce, schedule_occurrence, update_timers,
  schedule_resolved, schedule_timer, schedule_due_batch, ScheduleBatchResult, Json,
}
use chrono_flow.Repository.Recovery.{
  given_up, put_back, enqueued_at, reenqueue, recover_one, recover_batch, RecoveryResult,
}
use chrono_flow.Repository.Outbox.{
  update_events, claim_events, claim_unless_empty, claim_batch, mark_published, mark_failed,
}
use chrono_flow.Repository.Invariant.{
  update_executions-Invariant, from_result-Keeps, create_event-Invariant, IsConsistent,
  SameExecution, Invariant,
}

new_execution-IsConsistent :
    (timer_id : ℕ) (at now : Time) (snapshot : String) (id : ℕ)
    → IsConsistent (record (new_execution timer_id at now snapshot) { id = id })
unfolding new_execution
new_execution-IsConsistent timer_id at now snapshot id = ground arith

insert_execution-Invariant :
    (timer_id : ℕ) (at now : Time) (snapshot : String) (db : Database)
    → Invariant db
    → Invariant (insert_execution (new_execution timer_id at now snapshot) db).1
unfolding insert_execution new_execution
insert_execution-Invariant timer_id at now snapshot db h =
    elim (Bool-cases (any (same_slot timer_id at) db.executions)) [
      | inl e ↦ rw e h
      | inr e ↦ rw e (record {
        consistent = (
          new_execution-IsConsistent timer_id at now snapshot db.next_execution_id,
          h.consistent,
        );
        numbered = (omega arith, h.numbered);
        slotted = (e, h.slotted);
      })
    ]

announce-Invariant :
    (now : Time) (result : ScheduleBatchResult) (created : Option ℕ)
    → Keeps (On Invariant) (announce now result created)
unfolding announce
announce-Invariant now result none = search sql_rules
announce-Invariant now result (some id) = search (sql_rules, create_event-Invariant)

schedule_occurrence-Invariant :
    (timer_id : ℕ) (snapshot : String) (now : Time) (result : ScheduleBatchResult) (at : Time)
    → Keeps (On Invariant) (schedule_occurrence timer_id snapshot now result at)
unfolding schedule_occurrence
schedule_occurrence-Invariant timer_id snapshot now result at =
    Keeps-bind
      (Keeps-wrap_error "create execution" (
        Keeps-statement (insert_execution (new_execution timer_id at now snapshot))
          (insert_execution-Invariant timer_id at now snapshot)))
      (announce-Invariant now result)

pub update_timers-Invariant :
    (p : TimerDefinition → Bool) (f : TimerDefinition → TimerDefinition)
    → Keeps (On Invariant) (statement (update_timers p f))
unfolding update_timers
update_timers-Invariant p f =
    Keeps-statement (update_timers p f)
      λ db h. record { consistent = h.consistent; numbered = h.numbered; slotted = h.slotted }

module _ (json : Json) where
  schedule_resolved-Invariant :
      (now : Time) (result : ScheduleBatchResult) (definition : TimerDefinition)
      (occurrences : List Time) (next : Option Time)
      → Keeps (On Invariant) (schedule_resolved json now result definition occurrences next)
  unfolding schedule_resolved
  schedule_resolved-Invariant now result definition occurrences next =
      search (sql_rules, schedule_occurrence-Invariant, update_timers-Invariant) depth 16

  schedule_timer-Invariant :
      (resolve : DueTimerResolver) (now : Time) (result : ScheduleBatchResult)
      (definition : TimerDefinition)
      → Keeps (On Invariant) (schedule_timer json resolve now result definition)
  unfolding schedule_timer
  schedule_timer-Invariant resolve now result definition =
      Keeps-bind (Keeps-wrap_error _ (from_result-Keeps (resolve definition now)))
        λ resolved. schedule_resolved-Invariant now result definition resolved.0 resolved.1

  pub schedule_due_batch-Invariant :
      (unlocked : ℕ → Bool) (now : Time) (batch : ℤ) (resolve : DueTimerResolver)
      → Keeps (On Invariant) (schedule_due_batch json unlocked now batch resolve)
  unfolding schedule_due_batch
  schedule_due_batch-Invariant unlocked now batch resolve =
      search (sql_rules, schedule_timer-Invariant) depth 12

given_up-IsConsistent : (now : Time) (e : TimerExecution) → IsConsistent (given_up now e)
unfolding given_up
given_up-IsConsistent now e = ground arith

given_up-SameExecution : (now : Time) (e : TimerExecution) → SameExecution e (given_up now e)
unfolding given_up
given_up-SameExecution now e = ground arith

put_back-IsConsistent : (now : Time) (e : TimerExecution) → IsConsistent (put_back now e)
unfolding put_back
put_back-IsConsistent now e = ground arith

put_back-SameExecution : (now : Time) (e : TimerExecution) → SameExecution e (put_back now e)
unfolding put_back
put_back-SameExecution now e = ground arith

enqueued_at-IsConsistent :
    (now : Time) (e : TimerExecution) → IsConsistent e → IsConsistent (enqueued_at now e)
unfolding enqueued_at
enqueued_at-IsConsistent now e c = record {
  leased = c.leased;
  released = c.released;
  waiting = c.waiting;
  ended = c.ended;
  unstarted = c.unstarted;
}

enqueued_at-SameExecution : (now : Time) (e : TimerExecution) → SameExecution e (enqueued_at now e)
unfolding enqueued_at
enqueued_at-SameExecution now e = ground arith

reenqueue-Invariant :
    (now : Time) (result : RecoveryResult) (execution : TimerExecution)
    → Keeps (On Invariant) (reenqueue now result execution)
unfolding reenqueue
reenqueue-Invariant now result execution =
    search
      (
        sql_rules, create_event-Invariant, update_executions-Invariant, enqueued_at-IsConsistent,
        enqueued_at-SameExecution,
      )
      depth 12

recover_one-Invariant :
    (now : Time) (result : RecoveryResult) (execution : TimerExecution)
    → Keeps (On Invariant) (recover_one now result execution)
unfolding recover_one
recover_one-Invariant now result execution =
    search
      (
        sql_rules, reenqueue-Invariant, update_executions-Invariant, given_up-IsConsistent,
        given_up-SameExecution, put_back-IsConsistent, put_back-SameExecution,
      )
      depth 16

pub recover_batch-Invariant :
    (unlocked : ℕ → Bool) (now stale_before : Time) (batch : ℤ)
    → Keeps (On Invariant) (recover_batch unlocked now stale_before batch)
unfolding recover_batch
recover_batch-Invariant unlocked now stale_before batch =
    search (sql_rules, recover_one-Invariant) depth 12

update_events-Invariant :
    (p : OutboxEvent → Bool) (f : OutboxEvent → OutboxEvent)
    → Keeps (On Invariant) (statement (update_events p f))
unfolding update_events
update_events-Invariant p f =
    Keeps-statement (update_events p f)
      λ db h. record { consistent = h.consistent; numbered = h.numbered; slotted = h.slotted }

claim_events-Invariant :
    (owner : String) (until : Time) (events : List OutboxEvent)
    → Keeps (On Invariant) (claim_unless_empty owner until events)
unfolding claim_events
claim_events-Invariant owner until [] = search sql_rules
claim_events-Invariant owner until (e ∷ es) = search (sql_rules, update_events-Invariant) depth 12

pub claim_batch-Invariant :
    (unlocked : ℕ → Bool) (owner : String) (now : Time) (batch : ℤ) (ttl : ℕ)
    → Keeps (On Invariant) (claim_batch unlocked owner now batch ttl)
unfolding claim_batch
claim_batch-Invariant unlocked owner now batch ttl =
    Keeps-transaction (Keeps-bind (search sql_rules) (claim_events-Invariant owner (now + ttl)))

pub mark_published-Invariant :
    (event_id : EventId) (owner message_id : String) (at : Time)
    → Keeps (On Invariant) (mark_published event_id owner message_id at)
unfolding mark_published
mark_published-Invariant event_id owner message_id at =
    search (sql_rules, update_events-Invariant) depth 12

pub mark_failed-Invariant :
    (event_id : EventId) (owner last_error : String) (at : Time)
    → Keeps (On Invariant) (mark_failed event_id owner last_error at)
unfolding mark_failed
mark_failed-Invariant event_id owner last_error at =
    search (sql_rules, update_events-Invariant) depth 12
