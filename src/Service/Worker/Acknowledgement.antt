-- ===== src/Service/Worker/Acknowledgement.antt =====
-- When process (internal/service/stream_worker.go) acknowledges a message.
use chrono_flow.Common.{
  if◌then◌else◌, Option-cases, All, pos_part, ℕ, String, ◌≡◌, refl, inl, inr, Bool, true, false,
  Option, none, some, List, [], ◌∷◌,
}
use chrono_flow.Effect.{pure, Error, Result, ok, err}
use chrono_flow.Effect.Yields.{Yields-pure, Yields-keeps, Yields-bind, Yields-try, Yields}
use chrono_flow.Model.Execution.{TimerExecution}
use chrono_flow.Database.{Sql, Database, Session}
use chrono_flow.Database.SessionLaws.{Keeps-meanwhile, On}
use chrono_flow.Repository.Invariant.{Invariant}
use chrono_flow.Service.Stream.Messages.{StreamMessage}
use chrono_flow.Service.Worker.{
  is_malformed, persisted, failure_persisted, is_settled, heartbeat_loop, finish_failure,
  finish_success, finish, run_claimed, after_claim, process_with, process, CallbackResult, Tick,
  Surroundings,
}
use mathlib.Core.Path.{subst}
use chrono_flow.Service.Worker.Settled.{Settled}
use chrono_flow.Config.{seconds, WorkerConfig}
use chrono_flow.Repository.Schedule.{Json}
use chrono_flow.Effect.Keeps.{Keeps-pure, Keeps-bind, Keeps-try, Keeps-if, Keeps}
use chrono_flow.Repository.Executions.Consistency.{heartbeat-Invariant}
use chrono_flow.Service.Worker.Persistence.{
  AckSafe, complete_success-AckSafe, complete_failure-FailureSafe,
}
use chrono_flow.Service.Worker.Claiming.{
  ClaimSafe, claim-ClaimSafe, row_of-id, TrySafe, success_safe, failure_safe, IsPeaceful,
}

abbrev Handed : ℕ → Result (Result (Option TimerExecution × Bool)) → Session → Type 0
Handed id (ok r) s = ClaimSafe id r s
Handed id (err e) s = Unit {0}

module _ (json : Json) (cfg : WorkerConfig) (consumer_id : String) (text_of : Error → String)
    (world : Surroundings) where
  finish_failure-AckSafe :
      (execution : TimerExecution) (run_token : String) (code : ℕ) (body : String) (failure : Error)
      (retryable : Bool)
      → Yields
          (On Invariant)
          (finish_failure json cfg consumer_id text_of world execution run_token code body failure
            retryable)
          (AckSafe execution.id)
  unfolding finish_failure
  finish_failure-AckSafe execution run_token code body failure retryable =
      Yields-bind (TrySafe failure_persisted execution.id)
        (Yields-try
          (complete_failure-FailureSafe execution consumer_id run_token world.finished_at code body
            (text_of failure) _ _ retryable)
          (failure_safe execution.id))
        (λ e s q. tt) (λ r. Yields-pure (failure_persisted r) (λ s q. q))

  finish_success-AckSafe :
      (execution : TimerExecution) (run_token : String) (code : ℕ) (body : String)
      → Yields
          (On Invariant)
          (finish_success json cfg consumer_id text_of world execution run_token code body)
          (AckSafe execution.id)
  unfolding finish_success
  finish_success-AckSafe execution run_token code body =
      Yields-bind (TrySafe persisted execution.id)
        (Yields-try
          (complete_success-AckSafe execution.id consumer_id run_token world.finished_at code body
            _)
          (success_safe execution.id))
        (λ e s q. tt) (λ r. Yields-pure (persisted r) (λ s q. q))

  finish-AckSafe :
      (execution : TimerExecution) (run_token : String) (result : CallbackResult)
      → Yields
          (On Invariant)
          (finish json cfg consumer_id text_of world execution run_token result)
          (AckSafe execution.id)
  unfolding finish
  finish-AckSafe execution run_token result = elim (Option-cases result.error) [
    | inl e ↦ rw e (finish_success-AckSafe execution run_token _ _)
    | inr (failure, e) ↦ rw e (finish_failure-AckSafe execution run_token _ _ failure _)
  ]

  heartbeat_loop-Invariant :
      (id : ℕ) (run_token : String) (ticks : List Tick)
      → All (λ t. (db : Database) → Invariant db → Invariant (t.others db)) ticks
      → Keeps (On Invariant) (heartbeat_loop json cfg consumer_id text_of world id run_token ticks)
  unfolding heartbeat_loop
  heartbeat_loop-Invariant id run_token [] h = Keeps-pure false
  heartbeat_loop-Invariant id run_token (t ∷ ticks) h =
      Keeps-bind (Keeps-meanwhile t.others h.0) λ _.
        Keeps-bind (Keeps-try (heartbeat-Invariant id consumer_id run_token _)) λ r.
          Keeps-if (persisted r) (heartbeat_loop-Invariant id run_token ticks h.1) (Keeps-pure true)

  run_claimed-AckSafe :
      IsPeaceful world
      → (execution : TimerExecution) (run_token : String)
      → Yields
          (On Invariant)
          (run_claimed json cfg consumer_id text_of world execution run_token)
          (AckSafe execution.id)
  unfolding run_claimed
  run_claimed-AckSafe peace execution run_token =
      elim (Option-cases (json.decode_snapshot execution.request_snapshot)) [
        | inl e ↦ rw (run_claimed, e) (finish_failure-AckSafe execution run_token 0 "" _ false)
        | inr (snapshot, e) ↦
            rw (run_claimed, e)
              (Yields-bind (λ r. On Invariant)
                (Yields-keeps
                  (heartbeat_loop-Invariant execution.id run_token world.ticks peace.ticking))
                (λ x s q. tt)
                λ lost.
                  Yields-bind (λ r. On Invariant)
                    (Yields-keeps (Keeps-meanwhile world.before_result peace.finishing))
                    (λ x s q. tt)
                    λ _.
                      unless lost
                        (finish-AckSafe execution run_token (world.execute snapshot execution.id)))
      ]
    where
      unless :
          (lost : Bool) {m : Sql Bool}
          → Yields (On Invariant) m (AckSafe execution.id)
          → Yields (On Invariant) (if lost then pure false else m) (AckSafe execution.id)
      unless true h = Yields-pure false (λ s q. tt)
      unless false h = h

  after_claim-AckSafe :
      IsPeaceful world
      → (id : ℕ) (run_token : String) (outcome : Result (Option TimerExecution × Bool))
      → Yields
          (ClaimSafe id outcome)
          (after_claim json cfg consumer_id text_of world run_token outcome)
          (AckSafe id)
  unfolding after_claim
  after_claim-AckSafe peace id run_token (err e) = Yields-pure false (λ s q. tt)
  after_claim-AckSafe peace id run_token (ok (none, won)) = Yields-pure true (λ s q. rw q.1 refl)
  after_claim-AckSafe peace id run_token (ok (some e, true)) = record {
    at = λ s q.
        subst
          (λ i.
            AckSafe i (run_claimed json cfg consumer_id text_of world e run_token s).0
              (run_claimed json cfg consumer_id text_of world e run_token s).1)
          (row_of-id id s.db.executions q.1) ((run_claimed-AckSafe peace e run_token).at s q.0);
  }
  after_claim-AckSafe peace id run_token (ok (some e, false)) =
      Yields-pure (is_settled e) (λ s q. go (is_settled e) s (λ t. rw (q.1, t) refl))
    where
      go : (b : Bool) (s : Session) → (b ≡ true → Settled id s.db) → AckSafe id (ok b) s
      go true s k = k refl
      go false s k = tt

  process_with-AckSafe :
      IsPeaceful world
      → (id : ℕ) (run_token : String)
      → Yields
          (On Invariant)
          (process_with json cfg consumer_id text_of world id run_token)
          (AckSafe id)
  unfolding process_with
  process_with-AckSafe peace id run_token =
      Yields-bind (λ r s. Handed id r s)
        (Yields-try
          (claim-ClaimSafe world.after_claim peace.claiming id consumer_id run_token
            world.started_at (seconds cfg.lease_ttl_seconds))
          (λ r s q. q))
        (λ e s q. tt) (after_claim-AckSafe peace id run_token)

  -- A message of a well-formed execution id is acknowledged only if, at the end of its processing,
  -- the table has no row of that id, or the row has ended or waits for its retry. That holds
  -- whatever the callback answers, whichever statements fail, and whatever other sessions commit, as
  -- long as they keep the invariant of the table.
  pub process-acknowledges-Settled :
      IsPeaceful world
      → (msg : StreamMessage) (s : Session) → Invariant s.db
      → is_malformed msg ≡ false
      → (process json cfg consumer_id text_of world msg s).0 ≡ ok true
      → Settled (pos_part msg.execution_id) (process json cfg consumer_id text_of world msg s).1.db
  unfolding process
  process-acknowledges-Settled peace msg s h wellformed acked =
      extract (process json cfg consumer_id text_of world msg s).0
        (process json cfg consumer_id text_of world msg s).1
        (elim (Option-cases world.run_token) [
          | inl e ↦
              rw (wellformed, e)
                ((Yields-pure {P = On Invariant} {Q = AckSafe id} false (λ s q. tt)).at s start)
          | inr (token, e) ↦ rw (wellformed, e) ((process_with-AckSafe peace id token).at s start)
        ])
        acked
    where
      id : ℕ
      id = pos_part msg.execution_id

      start : On Invariant s
      start = record { holds = h }

      extract : (r : Result Bool) (s : Session) → AckSafe id r s → r ≡ ok true → Settled id s.db
      extract (ok true) s q e = q
      extract (ok false) s q e = cc
      extract (err x) s q e = cc
