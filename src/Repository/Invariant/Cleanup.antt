-- ===== src/Repository/Invariant/Cleanup.antt =====
-- The invariant and Cleanup of internal/repository/recovery_repo.go.
use chrono_flow.Common.{
  Bool-cases, any, keep, All-keep, ℕ, ◌≤◌, ◌≡◌, refl, inl, inr, Bool, false, List, [], ◌∷◌, arith,
}
use chrono_flow.Effect.Keeps.{Keeps-pure, Keeps-bind, Keeps-wrap_error, Keeps}
use chrono_flow.Database.{Database}
use chrono_flow.Database.SessionLaws.{Keeps-statement, Keeps-transaction, On}
use chrono_flow.Model.Timer.{Time}
use chrono_flow.Model.Execution.{TimerExecution}
use chrono_flow.Repository.Executions.{same_slot}
use chrono_flow.Repository.Recovery.{delete_events, delete_executions, cleanup}
use chrono_flow.Repository.Invariant.{Below, Slotted, IsConsistent, Invariant}

Below-mono : (m n : ℕ) (es : List TimerExecution) → m ≤ n → Below m es → Below n es
Below-mono m n [] le b = tt
Below-mono m n (e ∷ es) le b = (omega (arith, b.0), b.1)

module _ (p : TimerExecution → Bool) where
  Below-keep : (n : ℕ) (es : List TimerExecution) → Below n es → Below n (keep p es)
  Below-keep n [] b = tt
  Below-keep n (e ∷ es) b = elim (Bool-cases (p e)) [
    | inl t ↦ rw t (b.0, Below-keep e.id es b.1)
    | inr t ↦ rw t (Below-keep n es (Below-mono e.id n es (omega (arith, b.0)) b.1))
  ]

  any-keep :
      (q : TimerExecution → Bool) (es : List TimerExecution)
      → any q es ≡ false
      → any q (keep p es) ≡ false
  any-keep q [] h = refl
  any-keep q (e ∷ es) h = ground (arith, any-keep q es)

  Slotted-keep : (es : List TimerExecution) → Slotted es → Slotted (keep p es)
  Slotted-keep [] h = tt
  Slotted-keep (e ∷ es) h = elim (Bool-cases (p e)) [
    | inl t ↦ rw t (any-keep (same_slot e.timer_id e.scheduled_at) es h.0, Slotted-keep es h.1)
    | inr t ↦ rw t (Slotted-keep es h.1)
  ]

delete_events-Invariant :
    (before : Time) (batch : ℕ) (db : Database)
    → Invariant db
    → Invariant (delete_events before batch db).1
unfolding delete_events
delete_events-Invariant before batch db h = record {
  consistent = h.consistent;
  numbered = h.numbered;
  slotted = h.slotted;
}

delete_executions-Invariant :
    (before : Time) (batch : ℕ) (db : Database)
    → Invariant db
    → Invariant (delete_executions before batch db).1
unfolding delete_executions
delete_executions-Invariant before batch db h = record {
  consistent = All-keep IsConsistent _ db.executions h.consistent;
  numbered = Below-keep _ db.next_execution_id db.executions h.numbered;
  slotted = Slotted-keep _ db.executions h.slotted;
}

pub cleanup-Invariant :
    (outbox_before execution_before : Time) (batch : ℕ)
    → Keeps (On Invariant) (cleanup outbox_before execution_before batch)
unfolding cleanup
cleanup-Invariant outbox_before execution_before batch = Keeps-wrap_error _ (
    Keeps-transaction (
      Keeps-bind (Keeps-statement _ (delete_events-Invariant outbox_before batch)) λ n.
        Keeps-bind (Keeps-statement _ (delete_executions-Invariant execution_before batch))
          λ m. Keeps-pure _))
