-- ===== src/Repository/Schedule/Batch.antt =====
-- A committed batch of ScheduleDueBatch (internal/repository/scheduler_repo.go).
use mathlib.Core.Path.{subst}
use chrono_flow.Common.{All, ℤ, ℕ, ◌≤◌, ◌≡◌, Bool, true, Option, List, [], ◌∷◌, arith}
use chrono_flow.Effect.{Result, ok, err}
use chrono_flow.Database.{statement, Session}
use chrono_flow.Database.Outcomes.{OnSuccess}
use chrono_flow.Database.Successes.{
  Ensures-pure, Ensures-raise, Ensures-bind, Ensures-wrap_error, Ensures-or_raise, Ensures-require,
  Ensures-statement, Ensures-query, Ensures-for_each, Ensures-transaction, Ensures,
}
use chrono_flow.Model.Timer.{Time, TimerDefinition}
use chrono_flow.Model.Execution.{TimerExecution}
use chrono_flow.Model.Outbox.{OutboxEvent}
use chrono_flow.Repository.Events.{from_result}
use chrono_flow.Repository.Invariant.{Below}
use chrono_flow.Repository.Schedule.{
  DueTimerResolver, update_timers, schedule_resolved, schedule_timer, schedule_due_batch,
  ScheduleBatchResult, Json,
}
use chrono_flow.Repository.Schedule.Announced.{
  is_announced, Announced, schedule_occurrence-Announced,
}

module _ (first : ℕ) where
  from_result-Announced :
      {A : Type 0} (r : Result A) → Ensures (Announced first) (Announced first) (from_result r)
  from_result-Announced (ok a) = Ensures-pure a
  from_result-Announced (err e) = Ensures-raise e

  update_timers-Announced :
      (p : TimerDefinition → Bool) (f : TimerDefinition → TimerDefinition)
      → Ensures (Announced first) (Announced first) (statement (update_timers p f))
  unfolding update_timers
  update_timers-Announced p f = Ensures-statement (Announced first) (update_timers p f) (λ db h. h)

  module _ (json : Json) where
    schedule_resolved-Announced :
        (now : Time) (result : ScheduleBatchResult) (definition : TimerDefinition)
        (occurrences : List Time) (next : Option Time)
        → Ensures
            (Announced first)
            (Announced first)
            (schedule_resolved json now result definition occurrences next)
    unfolding schedule_resolved
    schedule_resolved-Announced now result definition occurrences next =
        Ensures-bind (Announced first) (Ensures-or_raise next _) λ at.
          Ensures-bind (Announced first) (Ensures-or_raise _ _) λ snapshot.
            Ensures-bind (Announced first)
              (Ensures-for_each
                (λ b a. schedule_occurrence-Announced first definition.id snapshot now b a) result
                occurrences)
              λ counted.
                Ensures-bind (Announced first) (Ensures-wrap_error _ (update_timers-Announced _ _))
                  λ affected.
                    Ensures-bind (Announced first) (Ensures-require _ _) (λ done. Ensures-pure _)

    schedule_timer-Announced :
        (resolve : DueTimerResolver) (now : Time) (result : ScheduleBatchResult)
        (definition : TimerDefinition)
        → Ensures
            (Announced first)
            (Announced first)
            (schedule_timer json resolve now result definition)
    unfolding schedule_timer
    schedule_timer-Announced resolve now result definition =
        Ensures-bind (Announced first)
          (Ensures-wrap_error _ (from_result-Announced (resolve definition now)))
          λ resolved. schedule_resolved-Announced now result definition resolved.0 resolved.1

    schedule_due_batch-Ensures :
        (unlocked : ℕ → Bool) (now : Time) (batch : ℤ) (resolve : DueTimerResolver)
        → Ensures
            (Announced first)
            (Announced first)
            (schedule_due_batch json unlocked now batch resolve)
    unfolding schedule_due_batch
    schedule_due_batch-Ensures unlocked now batch resolve = Ensures-transaction (Announced first) (
        Ensures-bind (Announced first) (Ensures-wrap_error _ (Ensures-query _))
          (λ timers. Ensures-for_each (schedule_timer-Announced resolve now) _ timers))

-- Before the batch there is no execution from the counter on.
none_new :
    (n m : ℕ) (outbox : List OutboxEvent) (es : List TimerExecution)
    → Below n es
    → n ≤ m
    → All (λ e. m ≤ e.id → is_announced e.id outbox ≡ true) es
none_new n m outbox [] b le = tt
none_new n m outbox (e ∷ es) b le =
    ((λ k. absurd (omega (arith, b.0))), none_new e.id m outbox es b.1 (omega (arith, b.0)))

-- When a batch is committed, every execution that it has created has its ready event in the outbox,
-- if all ids in use are below the counter before.
pub schedule_due_batch-Announced :
    (json : Json) (unlocked : ℕ → Bool) (now : Time) (batch : ℤ) (resolve : DueTimerResolver)
    (s : Session) {result : ScheduleBatchResult}
    → Below s.db.next_execution_id s.db.executions
    → (schedule_due_batch json unlocked now batch resolve s).0 ≡ ok result
    → Announced s.db.next_execution_id (schedule_due_batch json unlocked now batch resolve s).1.db
schedule_due_batch-Announced json unlocked now batch resolve s b e =
    subst
      (λ r.
        OnSuccess (λ x. Announced s.db.next_execution_id) r
          (schedule_due_batch json unlocked now batch resolve s).1)
      e
      ((schedule_due_batch-Ensures s.db.next_execution_id json unlocked now batch resolve).ends.at s
        (none_new s.db.next_execution_id s.db.next_execution_id s.db.outbox s.db.executions b
          (omega arith)))
