-- ===== src/Repository/Histories/CoherentEvents.antt =====
-- The events of the outbox in every sequence of the calls that write.
use chrono_flow.Common.{ℤ, ℕ, ◌+◌, String, Bool, Option, none, some, List, [], ◌∷◌}
use chrono_flow.Effect.Keeps.{Keeps-pure, Keeps-bind, Keeps-wrap_error, Keeps}
use chrono_flow.Database.SessionLaws.{
  Keeps-statement, Keeps-transaction, On, sql_rules, Keeps-meanwhile,
}
use chrono_flow.Model.Timer.{Time, TimerDefinition, TimerStatus}
use chrono_flow.Model.Execution.{TimerExecution}
use chrono_flow.Model.Outbox.{OutboxEvent, EventId}
use chrono_flow.Repository.Executions.{claim, heartbeat, complete_success, complete_failure}
use chrono_flow.Repository.Schedule.{
  DueTimerResolver, announce, schedule_occurrence, schedule_resolved, schedule_timer,
  schedule_due_batch, ScheduleBatchResult, Json,
}
use chrono_flow.Repository.Recovery.{cleanup, reenqueue, recover_one, recover_batch, RecoveryResult}
use chrono_flow.Repository.Outbox.{
  claim_events as events_claimed, claim_unless_empty, claim_batch, mark_published, mark_failed,
}
use chrono_flow.Repository.Timers.{
  insert_timer, create_definition, delete_definition, update_schedule_state,
}
use chrono_flow.Repository.Invariant.{from_result-Keeps}
use chrono_flow.Repository.Outbox.Coherence.{
  EventsCoherent, coherent_rules, delete_events-Coherent, delete_executions-Coherent,
  with_claim-Coherent, published-Coherent, attempt_failed-Coherent,
}
use chrono_flow.Database.{Session}
use chrono_flow.Repository.Histories.{
  Keeps-ignore, kept, perform, perform_all, Operation, create_timer, delete_timer, update_timer,
  schedule_batch, claim_events, mark_event_published, mark_event_failed, claim_execution,
  renew_lease, record_success, record_failure, recover, clean_up,
}

announce-Coherent :
    (now : Time) (result : ScheduleBatchResult) (created : Option ℕ)
    → Keeps (On EventsCoherent) (announce now result created)
unfolding announce
announce-Coherent now result none = search (coherent_rules)
announce-Coherent now result (some id) = search coherent_rules depth 12

schedule_occurrence-Coherent :
    (timer_id : ℕ) (snapshot : String) (now : Time) (result : ScheduleBatchResult) (at : Time)
    → Keeps (On EventsCoherent) (schedule_occurrence timer_id snapshot now result at)
unfolding schedule_occurrence
schedule_occurrence-Coherent timer_id snapshot now result at =
    Keeps-bind (Keeps-wrap_error _ (search coherent_rules)) (announce-Coherent now result)

schedule_resolved-Coherent :
    (json : Json) (now : Time) (result : ScheduleBatchResult) (definition : TimerDefinition)
    (occurrences : List Time) (next : Option Time)
    → Keeps (On EventsCoherent) (schedule_resolved json now result definition occurrences next)
unfolding schedule_resolved
schedule_resolved-Coherent json now result definition occurrences next =
    search (coherent_rules, schedule_occurrence-Coherent) depth 16

schedule_timer-Coherent :
    (json : Json) (resolve : DueTimerResolver) (now : Time) (result : ScheduleBatchResult)
    (definition : TimerDefinition)
    → Keeps (On EventsCoherent) (schedule_timer json resolve now result definition)
unfolding schedule_timer
schedule_timer-Coherent json resolve now result definition =
    Keeps-bind (Keeps-wrap_error _ (from_result-Keeps (resolve definition now)))
      λ resolved. schedule_resolved-Coherent json now result definition resolved.0 resolved.1

schedule_due_batch-Coherent :
    (json : Json) (unlocked : ℕ → Bool) (now : Time) (batch : ℤ) (resolve : DueTimerResolver)
    → Keeps (On EventsCoherent) (schedule_due_batch json unlocked now batch resolve)
unfolding schedule_due_batch
schedule_due_batch-Coherent json unlocked now batch resolve =
    search (coherent_rules, schedule_timer-Coherent) depth 12

claim_unless_empty-Coherent :
    (owner : String) (until : Time) (events : List OutboxEvent)
    → Keeps (On EventsCoherent) (claim_unless_empty owner until events)
unfolding events_claimed
claim_unless_empty-Coherent owner until [] = search (coherent_rules)
claim_unless_empty-Coherent owner until (e ∷ rest) =
    search (coherent_rules, with_claim-Coherent) depth 12

claim_batch-Coherent :
    (unlocked : ℕ → Bool) (owner : String) (now : Time) (batch : ℤ) (ttl : ℕ)
    → Keeps (On EventsCoherent) (claim_batch unlocked owner now batch ttl)
unfolding claim_batch
claim_batch-Coherent unlocked owner now batch ttl =
    Keeps-transaction
      (Keeps-bind (search coherent_rules) (claim_unless_empty-Coherent owner (now + ttl)))

mark_published-Coherent :
    (event_id : EventId) (owner message_id : String) (at : Time)
    → Keeps (On EventsCoherent) (mark_published event_id owner message_id at)
unfolding mark_published
mark_published-Coherent event_id owner message_id at =
    search (coherent_rules, published-Coherent) depth 12

mark_failed-Coherent :
    (event_id : EventId) (owner last_error : String) (at : Time)
    → Keeps (On EventsCoherent) (mark_failed event_id owner last_error at)
unfolding mark_failed
mark_failed-Coherent event_id owner last_error at =
    search (coherent_rules, attempt_failed-Coherent) depth 12

create_definition-Coherent :
    (def : TimerDefinition) → Keeps (On EventsCoherent) (create_definition def)
unfolding create_definition insert_timer
create_definition-Coherent def = Keeps-wrap_error _ (Keeps-statement _ (λ db h. h))

delete_definition-Coherent : (id : ℕ) → Keeps (On EventsCoherent) (delete_definition id)
unfolding delete_definition
delete_definition-Coherent id = search (coherent_rules) depth 12

update_schedule_state-Coherent :
    (id : ℕ) (from to : TimerStatus) (next : Option Time)
    → Keeps (On EventsCoherent) (update_schedule_state id from to next)
unfolding update_schedule_state
update_schedule_state-Coherent id from to next = search (coherent_rules) depth 12

claim-Coherent :
    (id : ℕ) (owner run_token : String) (now : Time) (ttl : ℕ)
    → Keeps (On EventsCoherent) (claim (λ db. db) id owner run_token now ttl)
unfolding claim
claim-Coherent id owner run_token now ttl =
    Keeps-bind (Keeps-wrap_error _ (search coherent_rules))
      λ affected. Keeps-bind (Keeps-meanwhile (λ db. db) (λ db h. h)) (λ _. search sql_rules)

heartbeat-Coherent :
    (id : ℕ) (owner run_token : String) (t : Time)
    → Keeps (On EventsCoherent) (heartbeat id owner run_token t)
unfolding heartbeat
heartbeat-Coherent id owner run_token t = search (coherent_rules) depth 12

complete_success-Coherent :
    (id : ℕ) (owner run_token : String) (at code : ℕ) (body : String) (duration : ℕ)
    → Keeps (On EventsCoherent) (complete_success id owner run_token at code body duration)
unfolding complete_success
complete_success-Coherent id owner run_token at code body duration =
    search (coherent_rules) depth 12

complete_failure-Coherent :
    (execution : TimerExecution) (owner run_token : String) (at code : ℕ) (body error : String)
    (duration retry_at : ℕ) (retryable : Bool)
    → Keeps
        (On EventsCoherent)
        (complete_failure execution owner run_token at code body error duration retry_at retryable)
unfolding complete_failure
complete_failure-Coherent execution owner run_token at code body error duration retry_at retryable =
    search coherent_rules depth 12

reenqueue-Coherent :
    (now : Time) (result : RecoveryResult) (execution : TimerExecution)
    → Keeps (On EventsCoherent) (reenqueue now result execution)
unfolding reenqueue
reenqueue-Coherent now result execution = search coherent_rules depth 12

recover_one-Coherent :
    (now : Time) (result : RecoveryResult) (execution : TimerExecution)
    → Keeps (On EventsCoherent) (recover_one now result execution)
unfolding recover_one
recover_one-Coherent now result execution = search (coherent_rules, reenqueue-Coherent) depth 16

recover_batch-Coherent :
    (unlocked : ℕ → Bool) (now stale_before : Time) (batch : ℤ)
    → Keeps (On EventsCoherent) (recover_batch unlocked now stale_before batch)
unfolding recover_batch
recover_batch-Coherent unlocked now stale_before batch =
    search (coherent_rules, recover_one-Coherent) depth 12

cleanup-Coherent :
    (outbox_before execution_before : Time) (batch : ℕ)
    → Keeps (On EventsCoherent) (cleanup outbox_before execution_before batch)
unfolding cleanup
cleanup-Coherent outbox_before execution_before batch = Keeps-wrap_error _ (
    Keeps-transaction (
      Keeps-bind (Keeps-statement _ (delete_events-Coherent outbox_before batch)) λ n.
        Keeps-bind (Keeps-statement _ (delete_executions-Coherent execution_before batch))
          λ m. Keeps-pure _))

perform-Coherent : (json : Json) (o : Operation) → Keeps (On EventsCoherent) (perform json o)
unfolding perform
perform-Coherent json (create_timer def) = Keeps-ignore json (create_definition-Coherent def)
perform-Coherent json (delete_timer id) = Keeps-ignore json (delete_definition-Coherent id)
perform-Coherent json (update_timer id from to next) =
    Keeps-ignore json (update_schedule_state-Coherent id from to next)
perform-Coherent json (schedule_batch unlocked now batch resolve) =
    Keeps-ignore json (schedule_due_batch-Coherent json unlocked now batch resolve)
perform-Coherent json (claim_events unlocked owner now batch ttl) =
    Keeps-ignore json (claim_batch-Coherent unlocked owner now batch ttl)
perform-Coherent json (mark_event_published event_id owner message_id at) =
    Keeps-ignore json (mark_published-Coherent event_id owner message_id at)
perform-Coherent json (mark_event_failed event_id owner last_error at) =
    Keeps-ignore json (mark_failed-Coherent event_id owner last_error at)
perform-Coherent json (claim_execution id owner run_token now ttl) =
    Keeps-ignore json (claim-Coherent id owner run_token now ttl)
perform-Coherent json (renew_lease id owner run_token until) =
    Keeps-ignore json (heartbeat-Coherent id owner run_token until)
perform-Coherent json (record_success id owner run_token at code body duration) =
    Keeps-ignore json (complete_success-Coherent id owner run_token at code body duration)
perform-Coherent json (record_failure e owner run_token at code body error duration retry_at r) =
    Keeps-ignore json
      (complete_failure-Coherent e owner run_token at code body error duration retry_at r)
perform-Coherent json (recover unlocked now stale_before batch) =
    Keeps-ignore json (recover_batch-Coherent unlocked now stale_before batch)
perform-Coherent json (clean_up outbox_before execution_before batch) =
    Keeps-ignore json (cleanup-Coherent outbox_before execution_before batch)

-- Every sequence of the calls that write, with any failures of statements, keeps the events coherent:
-- the id of an event in the outbox names the kind of the event (ready, retry or recovery) and the
-- execution that the event is about, and its payload has the same id, kind and execution.
pub histories_keep-EventsCoherent :
    (json : Json) (operations : List Operation) (s : Session)
    → EventsCoherent s.db
    → EventsCoherent (perform_all json operations s).db
histories_keep-EventsCoherent json operations s h =
    (kept json (perform-Coherent json) operations s (record { holds = h })).holds
