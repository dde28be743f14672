-- ===== src/Repository/Recovery/Loop.antt =====
-- The loop of RecoverBatch (internal/repository/recovery_repo.go).
use chrono_flow.Common.{
  leb, if◌then◌else◌, Bool-cases, any, All, All-map_lem, ◌≤◌, inl, inr, Bool, List, [], ◌∷◌,
}
use chrono_flow.Effect.{for_each, Result, ok, err}
use chrono_flow.Effect.Yields.{Yields-pure, Yields-raise, Yields-bind, Yields-when, Yields}
use chrono_flow.Database.{update_where, statement, Database}
use chrono_flow.Database.SessionLaws.{statement_cases}
use chrono_flow.Database.Outcomes.{OnSuccess}
use chrono_flow.Model.Timer.{Time}
use chrono_flow.Model.Execution.{is_running, TimerExecution}
use chrono_flow.Model.Outbox.{event_id_eq, OutboxEvent}
use chrono_flow.Repository.Events.{insert_event, from_result, create_event}
use chrono_flow.Repository.Executions.{update_executions}
use chrono_flow.Repository.Recovery.{
  is_expired_row, given_up, put_back, enqueued_at, has_id, reenqueue, recover_one, RecoveryResult,
}
use chrono_flow.Repository.Recovery.Rows.{
  ToCome, InRound, enqueue-ToCome, wait-InRound, give_up-ToCome, put_back-InRound,
}

abbrev pub EachRow : (TimerExecution → Type 0) → Database → Type 0
EachRow P db = All P db.executions

module _ (P Q : TimerExecution → Type 0) (p : TimerExecution → Bool)
    (f : TimerExecution → TimerExecution)
    (k : (r : TimerExecution) → P r → Q (if p r then f r else r)) where
  update_where-All : (es : List TimerExecution) → All P es → All Q (update_where p f es)
  unfolding update_where
  update_where-All [] h = tt
  update_where-All (e ∷ es) h = (k e h.0, update_where-All es h.1)

  update_executions-EachRow :
      Yields (λ s. EachRow P s.db) (statement (update_executions p f)) (OnSuccess (λ n. EachRow Q))
  unfolding update_executions
  update_executions-EachRow = record {
    at = λ s h. elim (statement_cases (update_executions p f) s) [
      | inl c ↦ rw c.0 tt
      | inr c ↦ rw (c.0, c.1) (update_where-All s.db.executions h)
    ];
  }

insert_event-EachRow :
    (P : TimerExecution → Type 0) (event : OutboxEvent) (db : Database)
    → EachRow P db
    → EachRow P (insert_event event db).1
unfolding insert_event
insert_event-EachRow P event db h =
    elim (Bool-cases (any (λ o. event_id_eq o.event_id event.event_id) db.outbox)) [
      | inl e ↦ rw e h
      | inr e ↦ rw e h
    ]

create_event-EachRow :
    (P : TimerExecution → Type 0) (event : OutboxEvent)
    → Yields (λ s. EachRow P s.db) (create_event event) (OnSuccess (λ done. EachRow P))
unfolding create_event
create_event-EachRow P event =
    Yields-bind (OnSuccess (λ r. EachRow P))
      (record {
        at = λ s h. elim (statement_cases (insert_event event) s) [
          | inl c ↦ rw c.0 tt
          | inr c ↦ rw (c.0, c.1) (insert_event-EachRow P event s.db h)
        ];
      })
      (λ e s q. tt) handed_on
  where
    handed_on :
        (r : Result (Unit {0}))
        → Yields (λ s. EachRow P s.db) (from_result r) (OnSuccess (λ done. EachRow P))
    handed_on (ok a) = Yields-pure a (λ s q. q)
    handed_on (err e) = Yields-raise e (λ s q. tt)

module _ (now stale_before : Time) (recent : stale_before ≤ now) where
  abbrev pub Rest : List TimerExecution → Database → Type 0
  Rest rest = EachRow (ToCome now stale_before recent rest)

  abbrev pub Midway : TimerExecution → List TimerExecution → Database → Type 0
  Midway e rest = EachRow (InRound now stale_before recent e rest)

  reenqueue-Rest :
      (e : TimerExecution) (rest : List TimerExecution) (result : RecoveryResult)
      → Yields (λ s. Midway e rest s.db) (reenqueue now result e) (OnSuccess (λ r. Rest rest))
  unfolding reenqueue
  reenqueue-Rest e rest result =
      Yields-bind (OnSuccess (λ done. Midway e rest)) (create_event-EachRow _ _) (λ x s q. tt)
        λ done.
          Yields-bind (OnSuccess (λ n. Rest rest))
            (update_executions-EachRow _ _ (has_id e.id) (enqueued_at now)
              (enqueue-ToCome now stale_before recent e rest))
            (λ x s q. tt) λ n. Yields-pure _ (λ s q. q)

  recover_one-Rest :
      (e : TimerExecution) (rest : List TimerExecution) (result : RecoveryResult)
      → Yields (λ s. Rest (e ∷ rest) s.db) (recover_one now result e) (OnSuccess (λ r. Rest rest))
  unfolding recover_one
  recover_one-Rest e rest result = elim (Bool-cases (is_running e.status)) [
    | inr idle ↦
        rw (idle, recover_one)
          (Yields-when (λ s. Midway e rest s.db)
            (λ s.
              All-map_lem _ _ s.db.executions
                (λ r. wait-InRound now stale_before recent e rest r idle))
            (reenqueue-Rest e rest result))
    | inl live ↦ elim (Bool-cases (leb e.max_attempts e.attempt)) [
      | inl final ↦
          rw (live, final, recover_one)
            (Yields-bind (OnSuccess (λ n. Rest rest))
              (update_executions-EachRow _ _ (is_expired_row e) (given_up now)
                (λ r. give_up-ToCome now stale_before recent e rest r live))
              (λ x s q. tt) λ n. Yields-pure _ (λ s q. q))
      | inr more ↦
          rw (live, more, recover_one)
            (Yields-bind (OnSuccess (λ n. Midway e rest))
              (update_executions-EachRow _ _ (is_expired_row e) (put_back now)
                (λ r. put_back-InRound now stale_before recent e rest r live))
              (λ x s q. tt) λ n. reenqueue-Rest e rest _)
    ]
  ]

  pub loop-Rest :
      (result : RecoveryResult) (rest : List TimerExecution)
      → Yields
          (λ s. Rest rest s.db)
          (for_each (recover_one now) result rest)
          (OnSuccess (λ r. Rest []))
  unfolding for_each
  loop-Rest result [] = Yields-pure result (λ s q. q)
  loop-Rest result (e ∷ rest) =
      Yields-bind (OnSuccess (λ r. Rest rest)) (recover_one-Rest e rest result) (λ x s q. tt)
        (λ r. loop-Rest r rest)
