-- ===== src/Repository/Histories.antt =====
-- Every sequence of the calls of internal/repository that write, by any number of schedulers,
-- dispatchers, workers, reconcilers and API servers. A call of Claim is taken without what other
-- sessions do before its SELECT, which stands after it in the sequence.
pub mod CoherentEvents
use chrono_flow.Common.{ℤ, ℕ, String, Bool, Option, List, [], ◌∷◌}
use chrono_flow.Effect.{◌>>=◌, pure, try}
use chrono_flow.Effect.Keeps.{Keeps-pure, Keeps-bind, Keeps-wrap_error, Keeps-try, Keeps}
use chrono_flow.Database.{Sql, Session}
use chrono_flow.Database.SessionLaws.{Keeps-statement, On, sql_rules}
use chrono_flow.Model.Timer.{Time, TimerDefinition, TimerStatus}
use chrono_flow.Model.Execution.{TimerExecution}
use chrono_flow.Model.Outbox.{EventId}
use chrono_flow.Repository.Executions.{claim, heartbeat, complete_success, complete_failure}
use chrono_flow.Repository.Executions.Consistency.{
  claim-Invariant, heartbeat-Invariant, complete_success-Invariant, complete_failure-Invariant,
}
use chrono_flow.Repository.Schedule.{DueTimerResolver, schedule_due_batch, Json}
use chrono_flow.Repository.Recovery.{recover_batch, cleanup}
use chrono_flow.Repository.Outbox.{claim_batch, mark_published, mark_failed}
use chrono_flow.Repository.Timers.{
  insert_timer, create_definition, delete_definition, update_schedule_state,
}
use chrono_flow.Repository.Invariant.{Invariant}
use chrono_flow.Repository.Invariant.Growth.{
  update_timers-Invariant, schedule_due_batch-Invariant, recover_batch-Invariant,
  claim_batch-Invariant, mark_published-Invariant, mark_failed-Invariant,
}
use chrono_flow.Repository.Invariant.Cleanup.{cleanup-Invariant}
use chrono_flow.Repository.Lifecycle.{From, Reaches, here}
use chrono_flow.Repository.Lifecycle.Rules.{
  claim-From, heartbeat-From, complete_success-From, complete_failure-From, recover_batch-From,
}
use chrono_flow.Repository.Lifecycle.Growth.{
  schedule_due_batch-From, claim_batch-From, mark_published-From, mark_failed-From,
  create_definition-From, delete_definition-From, update_schedule_state-From,
}
use chrono_flow.Repository.Lifecycle.Deletion.{cleanup-From}

pub data Operation : Type 0 where
  create_timer : TimerDefinition → Operation
  delete_timer : ℕ → Operation
  update_timer : ℕ → TimerStatus → TimerStatus → Option Time → Operation
  schedule_batch : (ℕ → Bool) → Time → ℤ → DueTimerResolver → Operation
  claim_events : (ℕ → Bool) → String → Time → ℤ → ℕ → Operation
  mark_event_published : EventId → String → String → Time → Operation
  mark_event_failed : EventId → String → String → Time → Operation
  claim_execution : ℕ → String → String → Time → ℕ → Operation
  renew_lease : ℕ → String → String → Time → Operation
  record_success : ℕ → String → String → Time → ℕ → String → ℕ → Operation
  record_failure :
      TimerExecution → String → String → Time → ℕ → String → String → ℕ → Time → Bool → Operation
  recover : (ℕ → Bool) → Time → Time → ℤ → Operation
  clean_up : Time → Time → ℕ → Operation

abbrev pub ignore : {A : Type 0} → Sql A → Sql (Unit {0})
ignore m = try m >>= λ _. pure tt

module _ (json : Json) where
  -- The call; its caller goes on whether it returns an error or not.
  unfoldable pub perform : Operation → Sql (Unit {0})
  perform (create_timer def) = ignore (create_definition def)
  perform (delete_timer id) = ignore (delete_definition id)
  perform (update_timer id from to next) = ignore (update_schedule_state id from to next)
  perform (schedule_batch unlocked now batch resolve) =
      ignore (schedule_due_batch json unlocked now batch resolve)
  perform (claim_events unlocked owner now batch ttl) =
      ignore (claim_batch unlocked owner now batch ttl)
  perform (mark_event_published event_id owner message_id at) =
      ignore (mark_published event_id owner message_id at)
  perform (mark_event_failed event_id owner last_error at) =
      ignore (mark_failed event_id owner last_error at)
  perform (claim_execution id owner run_token now ttl) =
      ignore (claim (λ db. db) id owner run_token now ttl)
  perform (renew_lease id owner run_token until) = ignore (heartbeat id owner run_token until)
  perform (record_success id owner run_token at code body duration) =
      ignore (complete_success id owner run_token at code body duration)
  perform (record_failure e owner run_token at code body error duration retry_at retryable) =
      ignore (complete_failure e owner run_token at code body error duration retry_at retryable)
  perform (recover unlocked now stale_before batch) =
      ignore (recover_batch unlocked now stale_before batch)
  perform (clean_up outbox_before execution_before batch) =
      ignore (cleanup outbox_before execution_before batch)

  unfoldable pub perform_all : List Operation → Session → Session
  perform_all [] s = s
  perform_all (o ∷ os) s = perform_all os (perform o s).1

  create_definition-Invariant :
      (def : TimerDefinition) → Keeps (On Invariant) (create_definition def)
  unfolding create_definition insert_timer
  create_definition-Invariant def = Keeps-wrap_error _ (
      Keeps-statement _
        λ db h. record { consistent = h.consistent; numbered = h.numbered; slotted = h.slotted })

  delete_definition-Invariant : (id : ℕ) → Keeps (On Invariant) (delete_definition id)
  unfolding delete_definition
  delete_definition-Invariant id = search (sql_rules, update_timers-Invariant) depth 12

  update_schedule_state-Invariant :
      (id : ℕ) (from to : TimerStatus) (next : Option Time)
      → Keeps (On Invariant) (update_schedule_state id from to next)
  unfolding update_schedule_state
  update_schedule_state-Invariant id from to next =
      search (sql_rules, update_timers-Invariant) depth 12

  Keeps-ignore : {P : Session → Type 0} {A : Type 0} {m : Sql A} → Keeps P m → Keeps P (ignore m)
  Keeps-ignore h = Keeps-bind (Keeps-try h) (λ r. Keeps-pure tt)

  pub perform-Invariant : (o : Operation) → Keeps (On Invariant) (perform o)
  unfolding perform
  perform-Invariant (create_timer def) = Keeps-ignore (create_definition-Invariant def)
  perform-Invariant (delete_timer id) = Keeps-ignore (delete_definition-Invariant id)
  perform-Invariant (update_timer id from to next) =
      Keeps-ignore (update_schedule_state-Invariant id from to next)
  perform-Invariant (schedule_batch unlocked now batch resolve) =
      Keeps-ignore (schedule_due_batch-Invariant json unlocked now batch resolve)
  perform-Invariant (claim_events unlocked owner now batch ttl) =
      Keeps-ignore (claim_batch-Invariant unlocked owner now batch ttl)
  perform-Invariant (mark_event_published event_id owner message_id at) =
      Keeps-ignore (mark_published-Invariant event_id owner message_id at)
  perform-Invariant (mark_event_failed event_id owner last_error at) =
      Keeps-ignore (mark_failed-Invariant event_id owner last_error at)
  perform-Invariant (claim_execution id owner run_token now ttl) =
      Keeps-ignore (claim-Invariant id owner run_token (λ db. db) (λ db h. h) now ttl)
  perform-Invariant (renew_lease id owner run_token until) =
      Keeps-ignore (heartbeat-Invariant id owner run_token until)
  perform-Invariant (record_success id owner run_token at code body duration) =
      Keeps-ignore (complete_success-Invariant id owner run_token at code body duration)
  perform-Invariant (record_failure e owner run_token at code body error duration retry_at r) =
      Keeps-ignore
        (complete_failure-Invariant e owner run_token at code body error duration retry_at r)
  perform-Invariant (recover unlocked now stale_before batch) =
      Keeps-ignore (recover_batch-Invariant unlocked now stale_before batch)
  perform-Invariant (clean_up outbox_before execution_before batch) =
      Keeps-ignore (cleanup-Invariant outbox_before execution_before batch)

  pub perform-From : (es : List TimerExecution) (o : Operation) → Keeps (On (From es)) (perform o)
  unfolding perform
  perform-From es (create_timer def) = Keeps-ignore (create_definition-From es def)
  perform-From es (delete_timer id) = Keeps-ignore (delete_definition-From es id)
  perform-From es (update_timer id from to next) =
      Keeps-ignore (update_schedule_state-From es id from to next)
  perform-From es (schedule_batch unlocked now batch resolve) =
      Keeps-ignore (schedule_due_batch-From es json unlocked now batch resolve)
  perform-From es (claim_events unlocked owner now batch ttl) =
      Keeps-ignore (claim_batch-From es unlocked owner now batch ttl)
  perform-From es (mark_event_published event_id owner message_id at) =
      Keeps-ignore (mark_published-From es event_id owner message_id at)
  perform-From es (mark_event_failed event_id owner last_error at) =
      Keeps-ignore (mark_failed-From es event_id owner last_error at)
  perform-From es (claim_execution id owner run_token now ttl) =
      Keeps-ignore (claim-From es id owner run_token now ttl)
  perform-From es (renew_lease id owner run_token until) =
      Keeps-ignore (heartbeat-From es id owner run_token until)
  perform-From es (record_success id owner run_token at code body duration) =
      Keeps-ignore (complete_success-From es id owner run_token at code body duration)
  perform-From es (record_failure e owner run_token at code body error duration retry_at r) =
      Keeps-ignore
        (complete_failure-From es e owner run_token at code body error duration retry_at r)
  perform-From es (recover unlocked now stale_before batch) =
      Keeps-ignore (recover_batch-From es unlocked now stale_before batch)
  perform-From es (clean_up outbox_before execution_before batch) =
      Keeps-ignore (cleanup-From es outbox_before execution_before batch)

  kept :
      {P : Session → Type 0}
      → ((o : Operation) → Keeps P (perform o))
      → (os : List Operation) (s : Session) → P s
      → P (perform_all os s)
  unfolding perform_all
  kept k [] s h = h
  kept k (o ∷ os) s h = kept k os (perform o s).1 ((k o).at s h)

  -- After any sequence of calls, with any failures of statements, from a state in which it holds:
  -- an execution has a lease exactly while it is running and has been attempted then, RETRY_WAIT has
  -- its time, an ended one has its finished_at, and PENDING means never attempted; ids are unique and
  -- below the counter; and no two executions are of one timer and scheduled time.
  pub histories_keep-Invariant :
      (operations : List Operation) (s : Session)
      → Invariant s.db
      → Invariant (perform_all operations s).db
  histories_keep-Invariant operations s h =
      (kept perform-Invariant operations s (record { holds = h })).holds

  -- Any sequence of calls, with any failures of statements, changes the executions only along their
  -- life: one is created PENDING without attempts in a free slot, moves along the edges of the state
  -- machine with one attempt counted at each start, keeps its identity and its request, and is
  -- deleted only when an execution of its id has ended.
  pub histories_follow_lifecycle :
      (operations : List Operation) (s : Session)
      → Reaches s.db.executions (perform_all operations s).db.executions
  histories_follow_lifecycle operations s =
      (kept (perform-From s.db.executions) operations s (record { holds = here })).holds
