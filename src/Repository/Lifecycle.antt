-- ===== src/Repository/Lifecycle.antt =====
-- The life of an execution as a state machine, for the statements of internal/repository:
-- docs/roles-and-runtime.md.
pub mod Rules
pub mod Deletion
pub mod Growth
use chrono_flow.Common.{
  ◌==◌, Bool-cases, any, keep, All, ℕ, ◌+◌, ◌≡◌, refl, ◌⊎◌, inl, inr, Bool, true, false, ◌&&◌, List,
  [], ◌∷◌, arith,
}
use chrono_flow.Effect.Keeps.{Keeps-bind, Keeps}
use chrono_flow.Database.{update_where, statement, Database}
use chrono_flow.Database.SessionLaws.{Keeps-statement, On}
use chrono_flow.Model.Execution.{
  is_terminal, TimerExecution, ExecutionStatus, pending, running, retry_wait, success, failed,
}
use chrono_flow.Model.Outbox.{event_id_eq, OutboxEvent}
use chrono_flow.Repository.Executions.{update_executions, same_slot}
use chrono_flow.Repository.Events.{insert_event, create_event}
use chrono_flow.Repository.Invariant.{from_result-Keeps, SameExecution}

-- The edges between two statuses, and how many attempts each one counts.
pub data Edge : ExecutionStatus → ExecutionStatus → ℕ → Type 0 where
  start : Edge pending running 1
  start_again : Edge retry_wait running 1
  take_over : Edge running running 1
  succeed : Edge running success 0
  fail : Edge running failed 0
  wait : Edge running retry_wait 0

-- A row keeps its status and its attempts, or follows an edge; its identity never changes.
pub record IsAdvance (e f : TimerExecution) : Type 0 where
  pub same : SameExecution e f
  pub moved :
      ((f.status ≡ e.status) × (f.attempt ≡ e.attempt))
      ⊎ ((n : ℕ) × Edge e.status f.status n × (f.attempt ≡ e.attempt + n))

abbrev pub Advanced : List TimerExecution → List TimerExecution → Type 0
Advanced [] [] = Unit {0}
Advanced (e ∷ es) (f ∷ fs) = IsAdvance e f × Advanced es fs
Advanced _ _ = ⊥

-- The table holds an ended execution of this id.
abbrev pub has_ended : ℕ → List TimerExecution → Bool
has_ended id es = any (λ v. v.id == id && is_terminal v) es

-- One step of the table: an execution that has not been started is added, rows advance, or ended
-- executions are deleted.
pub data TableStep : List TimerExecution → List TimerExecution → Type 0 where
  create :
      {es : List TimerExecution} {e : TimerExecution}
      → e.status ≡ pending
      → e.attempt ≡ 0
      → any (same_slot e.timer_id e.scheduled_at) es ≡ false
      → TableStep es (e ∷ es)
  advance : {es fs : List TimerExecution} → Advanced es fs → TableStep es fs
  remove :
      {es : List TimerExecution} (p : TimerExecution → Bool)
      → All (λ e. p e ≡ false → has_ended e.id es ≡ true) es
      → TableStep es (keep p es)

pub data Reaches (es : List TimerExecution) : List TimerExecution → Type 0 where
  here : Reaches es es
  later : {fs gs : List TimerExecution} → Reaches es fs → TableStep fs gs → Reaches es gs

abbrev pub From : List TimerExecution → Database → Type 0
From es db = Reaches es db.executions

Advanced-update_where :
    (p : TimerExecution → Bool) (f : TimerExecution → TimerExecution)
    → ((e : TimerExecution) → p e ≡ true → IsAdvance e (f e))
    → (es : List TimerExecution) → Advanced es (update_where p f es)
unfolding update_where
Advanced-update_where p f k [] = tt
Advanced-update_where p f k (e ∷ es) = elim (Bool-cases (p e)) [
  | inl t ↦ rw t (k e t, Advanced-update_where p f k es)
  | inr t ↦ rw t (unmoved, Advanced-update_where p f k es)
]
  where
    unmoved : IsAdvance e e
    unmoved = record {
      same = record {
        same_id = refl;
        same_timer = refl;
        same_time = refl;
        same_limit = refl;
        same_request = refl;
        counted = omega arith;
      };
      moved = inl (refl, refl);
    }

module _ (es : List TimerExecution) where
  pub update_executions-From :
      (p : TimerExecution → Bool) (f : TimerExecution → TimerExecution)
      → ((e : TimerExecution) → p e ≡ true → IsAdvance e (f e))
      → Keeps (On (From es)) (statement (update_executions p f))
  unfolding update_executions
  update_executions-From p f k =
      Keeps-statement (update_executions p f)
        λ db h. later h (advance (Advanced-update_where p f k db.executions))

  insert_event-From :
      (event : OutboxEvent) (db : Database) → From es db → From es (insert_event event db).1
  unfolding insert_event
  insert_event-From event db h =
      elim (Bool-cases (any (λ o. event_id_eq o.event_id event.event_id) db.outbox)) [
        | inl e ↦ rw e h
        | inr e ↦ rw e h
      ]

  pub create_event-From : (event : OutboxEvent) → Keeps (On (From es)) (create_event event)
  unfolding create_event
  create_event-From event =
      Keeps-bind (Keeps-statement (insert_event event) (insert_event-From event)) from_result-Keeps
