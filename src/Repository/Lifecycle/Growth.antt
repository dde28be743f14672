-- ===== src/Repository/Lifecycle/Growth.antt =====
-- The life of an execution, the scheduler's transaction, and the statements about timers and events.
use chrono_flow.Common.{
  Bool-cases, any, ℤ, ℕ, ◌+◌, String, refl, inl, inr, Bool, Option, none, some, List, [], ◌∷◌,
}
use chrono_flow.Effect.Keeps.{Keeps-bind, Keeps-wrap_error, Keeps}
use chrono_flow.Database.{statement, Database}
use chrono_flow.Database.SessionLaws.{Keeps-statement, Keeps-transaction, On, sql_rules}
use chrono_flow.Model.Timer.{Time, TimerDefinition, TimerStatus}
use chrono_flow.Model.Execution.{TimerExecution}
use chrono_flow.Model.Outbox.{OutboxEvent, EventId}
use chrono_flow.Repository.Executions.{same_slot}
use chrono_flow.Repository.Schedule.{
  DueTimerResolver, new_execution, insert_execution, announce, schedule_occurrence, update_timers,
  schedule_resolved, schedule_timer, schedule_due_batch, ScheduleBatchResult, Json,
}
use chrono_flow.Repository.Outbox.{
  update_events, claim_events, claim_unless_empty, claim_batch, mark_published, mark_failed,
}
use chrono_flow.Repository.Timers.{
  insert_timer, create_definition, delete_definition, update_schedule_state,
}
use chrono_flow.Repository.Invariant.{from_result-Keeps}
use chrono_flow.Repository.Lifecycle.{From, create_event-From, create, later}

module _ (es : List TimerExecution) where
  insert_execution-From :
      (timer_id : ℕ) (at now : Time) (snapshot : String) (db : Database)
      → From es db
      → From es (insert_execution (new_execution timer_id at now snapshot) db).1
  unfolding insert_execution new_execution
  insert_execution-From timer_id at now snapshot db h =
      elim (Bool-cases (any (same_slot timer_id at) db.executions)) [
        | inl e ↦ rw e h
        | inr e ↦ rw e (later h (create refl refl e))
      ]

  announce-From :
      (now : Time) (result : ScheduleBatchResult) (created : Option ℕ)
      → Keeps (On (From es)) (announce now result created)
  unfolding announce
  announce-From now result none = search sql_rules
  announce-From now result (some id) = search (sql_rules, create_event-From)

  schedule_occurrence-From :
      (timer_id : ℕ) (snapshot : String) (now : Time) (result : ScheduleBatchResult) (at : Time)
      → Keeps (On (From es)) (schedule_occurrence timer_id snapshot now result at)
  unfolding schedule_occurrence
  schedule_occurrence-From timer_id snapshot now result at =
      Keeps-bind
        (Keeps-wrap_error _ (
          Keeps-statement (insert_execution (new_execution timer_id at now snapshot))
            (insert_execution-From timer_id at now snapshot)))
        (announce-From now result)

  update_timers-From :
      (p : TimerDefinition → Bool) (f : TimerDefinition → TimerDefinition)
      → Keeps (On (From es)) (statement (update_timers p f))
  unfolding update_timers
  update_timers-From p f = Keeps-statement (update_timers p f) λ db h. h

  module _ (json : Json) where
    schedule_resolved-From :
        (now : Time) (result : ScheduleBatchResult) (definition : TimerDefinition)
        (occurrences : List Time) (next : Option Time)
        → Keeps (On (From es)) (schedule_resolved json now result definition occurrences next)
    unfolding schedule_resolved
    schedule_resolved-From now result definition occurrences next =
        search (sql_rules, schedule_occurrence-From, update_timers-From) depth 16

    schedule_timer-From :
        (resolve : DueTimerResolver) (now : Time) (result : ScheduleBatchResult)
        (definition : TimerDefinition)
        → Keeps (On (From es)) (schedule_timer json resolve now result definition)
    unfolding schedule_timer
    schedule_timer-From resolve now result definition =
        Keeps-bind (Keeps-wrap_error _ (from_result-Keeps (resolve definition now)))
          λ resolved. schedule_resolved-From now result definition resolved.0 resolved.1

    pub schedule_due_batch-From :
        (unlocked : ℕ → Bool) (now : Time) (batch : ℤ) (resolve : DueTimerResolver)
        → Keeps (On (From es)) (schedule_due_batch json unlocked now batch resolve)
    unfolding schedule_due_batch
    schedule_due_batch-From unlocked now batch resolve =
        search (sql_rules, schedule_timer-From) depth 12

  update_events-From :
      (p : OutboxEvent → Bool) (f : OutboxEvent → OutboxEvent)
      → Keeps (On (From es)) (statement (update_events p f))
  unfolding update_events
  update_events-From p f = Keeps-statement (update_events p f) λ db h. h

  claim_events-From :
      (owner : String) (until : Time) (events : List OutboxEvent)
      → Keeps (On (From es)) (claim_unless_empty owner until events)
  unfolding claim_events
  claim_events-From owner until [] = search sql_rules
  claim_events-From owner until (e ∷ rest) = search (sql_rules, update_events-From) depth 12

  pub claim_batch-From :
      (unlocked : ℕ → Bool) (owner : String) (now : Time) (batch : ℤ) (ttl : ℕ)
      → Keeps (On (From es)) (claim_batch unlocked owner now batch ttl)
  unfolding claim_batch
  claim_batch-From unlocked owner now batch ttl =
      Keeps-transaction (Keeps-bind (search sql_rules) (claim_events-From owner (now + ttl)))

  pub mark_published-From :
      (event_id : EventId) (owner message_id : String) (at : Time)
      → Keeps (On (From es)) (mark_published event_id owner message_id at)
  unfolding mark_published
  mark_published-From event_id owner message_id at = search (sql_rules, update_events-From) depth 12

  pub mark_failed-From :
      (event_id : EventId) (owner last_error : String) (at : Time)
      → Keeps (On (From es)) (mark_failed event_id owner last_error at)
  unfolding mark_failed
  mark_failed-From event_id owner last_error at = search (sql_rules, update_events-From) depth 12

  pub create_definition-From :
      (def : TimerDefinition) → Keeps (On (From es)) (create_definition def)
  unfolding create_definition insert_timer
  create_definition-From def = Keeps-wrap_error _ (Keeps-statement _ (λ db h. h))

  pub delete_definition-From : (id : ℕ) → Keeps (On (From es)) (delete_definition id)
  unfolding delete_definition
  delete_definition-From id = search (sql_rules, update_timers-From) depth 12

  pub update_schedule_state-From :
      (id : ℕ) (from to : TimerStatus) (next : Option Time)
      → Keeps (On (From es)) (update_schedule_state id from to next)
  unfolding update_schedule_state
  update_schedule_state-From id from to next = search (sql_rules, update_timers-From) depth 12
