-- ===== src/Repository/Outbox/Coherence.antt =====
-- What the rows of outbox_events say, under every statement of internal/repository that writes.
use chrono_flow.Common.{Bool-cases, any, All, All-keep, ℕ, String, ◌≡◌, refl, inl, inr, Bool}
use chrono_flow.Effect.Keeps.{Keeps-bind, Keeps}
use chrono_flow.Database.{statement, Database}
use chrono_flow.Database.RowLaws.{All-update_where}
use chrono_flow.Database.SessionLaws.{
  Keeps-statement, Keeps-transaction, On, sql_rules, Keeps-meanwhile,
}
use chrono_flow.Model.Timer.{Time, TimerDefinition}
use chrono_flow.Model.Execution.{TimerExecution}
use chrono_flow.Model.Outbox.{
  event_id_eq, OutboxEvent, EventId, ready_id, retry_id, recovery_id, EventType, execution_ready,
  execution_retry, execution_recovery,
}
use chrono_flow.Repository.Events.{insert_event, create_event, new_execution_outbox_event}
use chrono_flow.Repository.Executions.{same_slot, update_executions}
use chrono_flow.Repository.Schedule.{insert_execution, update_timers}
use chrono_flow.Repository.Recovery.{delete_events, delete_executions}
use chrono_flow.Repository.Outbox.{update_events, with_claim, published, attempt_failed}
use chrono_flow.Repository.Invariant.{from_result-Keeps}

-- The kind of event, and the execution, that an event id names.
abbrev pub Names : EventId → EventType → ℕ → Type 0
Names (ready_id e) event_type execution_id = (event_type ≡ execution_ready) × (execution_id ≡ e)
Names (retry_id e attempt) event_type execution_id =
    (event_type ≡ execution_retry) × (execution_id ≡ e)
Names (recovery_id e at) event_type execution_id =
    (event_type ≡ execution_recovery) × (execution_id ≡ e)

-- The columns of an event agree with its id, and its payload says the same.
abbrev pub IsCoherent : OutboxEvent → Type 0
IsCoherent o =
    Names o.event_id o.event_type o.aggregate_id
    × (o.payload.event_id ≡ o.event_id)
    × (o.payload.event_type ≡ o.event_type)
    × (o.payload.execution_id ≡ o.aggregate_id)

abbrev pub EventsCoherent : Database → Type 0
EventsCoherent db = All IsCoherent db.outbox

abbrev KeepsCoherent : (OutboxEvent → OutboxEvent) → Type 0
KeepsCoherent f = (o : OutboxEvent) → IsCoherent o → IsCoherent (f o)

pub with_claim-Coherent : (owner : String) (until : Time) → KeepsCoherent (with_claim owner until)
unfolding with_claim
with_claim-Coherent owner until o h = h

pub published-Coherent : (at : Time) (message_id : String) → KeepsCoherent (published at message_id)
unfolding published
published-Coherent at message_id o h = h

pub attempt_failed-Coherent :
    (last_error : String) (at : Time) → KeepsCoherent (attempt_failed last_error at)
unfolding attempt_failed
attempt_failed-Coherent last_error at o h = h

new_event-IsCoherent :
    (execution_id : ℕ) (event_id : EventId) (event_type : EventType)
    (available_at created_at : Time)
    → Names event_id event_type execution_id
    → IsCoherent
        (new_execution_outbox_event execution_id event_id event_type available_at created_at)
unfolding new_execution_outbox_event
new_event-IsCoherent execution_id event_id event_type available_at created_at h =
    (h, refl, refl, refl)

insert_event-Coherent :
    (event : OutboxEvent) (db : Database)
    → IsCoherent event
    → EventsCoherent db
    → EventsCoherent (insert_event event db).1
unfolding insert_event
insert_event-Coherent event db c h =
    elim (Bool-cases (any (λ o. event_id_eq o.event_id event.event_id) db.outbox)) [
      | inl t ↦ rw t h
      | inr t ↦ rw t (c, h)
    ]

pub delete_events-Coherent :
    (before : Time) (batch : ℕ) (db : Database)
    → EventsCoherent db
    → EventsCoherent (delete_events before batch db).1
unfolding delete_events
delete_events-Coherent before batch db h = All-keep IsCoherent _ db.outbox h

pub delete_executions-Coherent :
    (before : Time) (batch : ℕ) (db : Database)
    → EventsCoherent db
    → EventsCoherent (delete_executions before batch db).1
unfolding delete_executions
delete_executions-Coherent before batch db h = h

pub update_events-Coherent :
    (p : OutboxEvent → Bool) (f : OutboxEvent → OutboxEvent)
    → KeepsCoherent f
    → Keeps (On EventsCoherent) (statement (update_events p f))
unfolding update_events
update_events-Coherent p f k =
    Keeps-statement (update_events p f)
      λ db h. All-update_where IsCoherent p f db.outbox (λ o e. k o) h

pub update_executions-Coherent :
    (p : TimerExecution → Bool) (f : TimerExecution → TimerExecution)
    → Keeps (On EventsCoherent) (statement (update_executions p f))
unfolding update_executions
update_executions-Coherent p f = Keeps-statement (update_executions p f) λ db h. h

pub update_timers-Coherent :
    (p : TimerDefinition → Bool) (f : TimerDefinition → TimerDefinition)
    → Keeps (On EventsCoherent) (statement (update_timers p f))
unfolding update_timers
update_timers-Coherent p f = Keeps-statement (update_timers p f) λ db h. h

pub insert_execution-Coherent :
    (execution : TimerExecution)
    → Keeps (On EventsCoherent) (statement (insert_execution execution))
unfolding insert_execution
insert_execution-Coherent execution = Keeps-statement (insert_execution execution) λ db h. go db h
  where
    go : (db : Database) → EventsCoherent db → EventsCoherent (insert_execution execution db).1
    go db h =
        elim (Bool-cases
          (any (same_slot execution.timer_id execution.scheduled_at) db.executions)) [
            | inl e ↦ rw e h
            | inr e ↦ rw e h
          ]

create_event-Coherent :
    (event : OutboxEvent) → IsCoherent event → Keeps (On EventsCoherent) (create_event event)
unfolding create_event
create_event-Coherent event c =
    Keeps-bind (Keeps-statement (insert_event event) (λ db. insert_event-Coherent event db c))
      from_result-Keeps

-- The INSERTs of the three kinds of event.
pub ready-Coherent :
    (execution_id : ℕ) (now : Time)
    → Keeps (On EventsCoherent) (
        create_event
          (new_execution_outbox_event execution_id (ready_id execution_id) execution_ready now now))
ready-Coherent execution_id now =
    create_event-Coherent _ (new_event-IsCoherent execution_id _ _ now now (refl, refl))

pub retry-Coherent :
    (execution_id attempt : ℕ) (retry_at finished_at : Time)
    → Keeps (On EventsCoherent) (
        create_event (
          new_execution_outbox_event execution_id
            (retry_id execution_id attempt)
            execution_retry
            retry_at
            finished_at))
retry-Coherent execution_id attempt retry_at finished_at =
    create_event-Coherent _
      (new_event-IsCoherent execution_id _ _ retry_at finished_at (refl, refl))

pub recovery-Coherent :
    (execution_id : ℕ) (now : Time)
    → Keeps (On EventsCoherent) (
        create_event (
          new_execution_outbox_event execution_id
            (recovery_id execution_id now)
            execution_recovery
            now
            now))
recovery-Coherent execution_id now =
    create_event-Coherent _ (new_event-IsCoherent execution_id _ _ now now (refl, refl))

pub ruleset coherent_rules = (
  sql_rules, ready-Coherent, retry-Coherent, recovery-Coherent, update_events-Coherent,
  update_executions-Coherent, update_timers-Coherent, insert_execution-Coherent,
)
