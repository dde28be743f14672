-- ===== src/Repository/Lifecycle/Deletion.antt =====
-- The life of an execution and Cleanup (internal/repository/recovery_repo.go).
use chrono_flow.Common.{
  ◌==◌, Bool-cases, take, any, keep, All, ℕ, zero, suc, ◌≡◌, refl, inl, inr, Bool, true, false,
  ◌||◌, List, [], ◌∷◌, arith,
}
use chrono_flow.Database.{order_by, any-order_by, Database}
use chrono_flow.Model.Execution.{TimerExecution}
use chrono_flow.Effect.Keeps.{Keeps-pure, Keeps-bind, Keeps-wrap_error, Keeps}
use chrono_flow.Database.SessionLaws.{Keeps-statement, Keeps-transaction, On}
use chrono_flow.Model.Timer.{Time}
use chrono_flow.Model.Outbox.{OutboxEvent}
use chrono_flow.Repository.Recovery.{
  by_execution_id, delete_events, is_old_execution, delete_executions, cleanup,
}
use chrono_flow.Repository.Lifecycle.{has_ended, From, remove, later}

module _ (q : TimerExecution → Bool) where
  any-take : (n : ℕ) (es : List TimerExecution) → any q (take n es) ≡ true → any q es ≡ true
  any-take zero es h = ground arith
  any-take (suc n) [] h = h
  any-take (suc n) (e ∷ es) h = ground (arith, any-take n es)

  any-keep :
      (p r : TimerExecution → Bool) (es : List TimerExecution)
      → ((e : TimerExecution) → p e ≡ true → q e ≡ true → r e ≡ true)
      → any q (keep p es) ≡ true
      → any r es ≡ true
  any-keep p r [] k h = ground arith
  any-keep p r (e ∷ es) k h = elim (Bool-cases (p e)) [
    | inl t ↦ elim (Bool-cases (q e)) [
      | inl u ↦ rw (k e t u) refl
      | inr u ↦ or_right (r e) (any r es) (any-keep p r es k (rw (t, u) at h))
    ]
    | inr t ↦ or_right (r e) (any r es) (any-keep p r es k (rw t at h))
  ]
    where
      or_right : (a b : Bool) → b ≡ true → (a || b) ≡ true
      or_right true b h = refl
      or_right false b h = h

victim_ended :
    (before : Time) (batch id : ℕ) (outbox : List OutboxEvent) (es : List TimerExecution)
    → any
        (λ v. v.id == id)
        (take batch (order_by by_execution_id (keep (is_old_execution before outbox) es)))
      ≡ true
    → has_ended id es ≡ true
unfolding is_old_execution
victim_ended before batch id outbox es h =
    any-keep (λ v. v.id == id) (is_old_execution before outbox) _ es (λ e t u. ground arith)
      (any-order_by (λ v. v.id == id) by_execution_id _ (any-take (λ v. v.id == id) batch _ h))

module _ (es : List TimerExecution) where
  delete_executions-From :
      (before : Time) (batch : ℕ) (db : Database)
      → From es db
      → From es (delete_executions before batch db).1
  unfolding delete_executions
  delete_executions-From before batch db h = later h (
      remove _ (
        all_of (λ e k. victim_ended before batch e.id db.outbox db.executions (ground arith))
          db.executions))
    where
      all_of :
          {P : TimerExecution → Type 0}
          → ((e : TimerExecution) → P e)
          → (fs : List TimerExecution) → All P fs
      all_of f [] = tt
      all_of f (e ∷ fs) = (f e, all_of f fs)

  delete_events-From :
      (before : Time) (batch : ℕ) (db : Database)
      → From es db
      → From es (delete_events before batch db).1
  unfolding delete_events
  delete_events-From before batch db h = h

  pub cleanup-From :
      (outbox_before execution_before : Time) (batch : ℕ)
      → Keeps (On (From es)) (cleanup outbox_before execution_before batch)
  unfolding cleanup
  cleanup-From outbox_before execution_before batch = Keeps-wrap_error _ (
      Keeps-transaction (
        Keeps-bind (Keeps-statement _ (delete_events-From outbox_before batch)) λ n.
          Keeps-bind (Keeps-statement _ (delete_executions-From execution_before batch))
            λ m. Keeps-pure _))
