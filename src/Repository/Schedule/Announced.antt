-- ===== src/Repository/Schedule/Announced.antt =====
-- One new execution of ScheduleDueBatch (internal/repository/scheduler_repo.go) and its event.
use mathlib.Core.Path.{subst}
use chrono_flow.Common.{
  ◌==◌, ==_refl, Bool-cases, any, All, All-map_lem, ℕ, ◌+◌, ◌≤◌, String, ◌≡◌, refl, sym, ◌⊎◌, inl,
  inr, Bool, true, false, ◌&&◌, ◌||◌, Option, none, some, List, ◌∷◌, arith,
}
use chrono_flow.Effect.{Result, ok, err}
use chrono_flow.Effect.Yields.{Yields-pure, Yields-raise, Yields-bind, Yields-wrap_error, Yields}
use chrono_flow.Database.{statement, Database, Session}
use chrono_flow.Database.SessionLaws.{statement_cases}
use chrono_flow.Model.Timer.{Time}
use chrono_flow.Model.Execution.{TimerExecution}
use chrono_flow.Model.Outbox.{event_id_eq, OutboxEvent, execution_ready, ready_id}
use chrono_flow.Repository.Events.{
  new_execution_outbox_event, insert_event, from_result, create_event,
}
use chrono_flow.Repository.Executions.{same_slot}
use chrono_flow.Repository.Schedule.{
  new_execution, insert_execution, announce, schedule_occurrence, ScheduleBatchResult,
}
use chrono_flow.Database.Outcomes.{OnSuccess}
use chrono_flow.Database.Successes.{Ensures-pure, Ensures-bind, Ensures-wrap_error, Ensures}

-- The outbox has the ready event of an execution.
abbrev pub is_announced : ℕ → List OutboxEvent → Bool
is_announced id outbox =
    any (λ o. event_id_eq o.event_id (ready_id id) && o.aggregate_id == id) outbox

-- From an id on, every execution has its ready event.
abbrev pub Announced : ℕ → Database → Type 0
Announced first db = All (λ e. first ≤ e.id → is_announced e.id db.outbox ≡ true) db.executions

-- But for one.
abbrev AllButOne : ℕ → ℕ → Database → Type 0
AllButOne first id db =
    All (λ e. first ≤ e.id → (e.id == id || is_announced e.id db.outbox) ≡ true) db.executions

or_right : (a b : Bool) → b ≡ true → (a || b) ≡ true
or_right true b h = refl
or_right false b h = h

or_cases : (a b : Bool) → (a || b) ≡ true → (a ≡ true) ⊎ (b ≡ true)
or_cases true b h = inl refl
or_cases false b h = inr h

module _ (first : ℕ) where
  abbrev Inserted : Result (Option ℕ) → Session → Type 0
  Inserted (ok none) s = Announced first s.db
  Inserted (ok (some id)) s = AllButOne first id s.db
  Inserted (err e) s = Unit {0}

  spared :
      (id : ℕ) (outbox : List OutboxEvent) (es : List TimerExecution)
      → All (λ e. first ≤ e.id → is_announced e.id outbox ≡ true) es
      → All (λ e. first ≤ e.id → (e.id == id || is_announced e.id outbox) ≡ true) es
  spared id outbox es h = All-map_lem _ _ es (λ e k le. or_right (e.id == id) _ (k le)) h

  inserted :
      (timer_id : ℕ) (at now : Time) (snapshot : String) (s : Session)
      → Announced first s.db
      → Inserted
          (ok (insert_execution (new_execution timer_id at now snapshot) s.db).0)
          (record s { db = (insert_execution (new_execution timer_id at now snapshot) s.db).1 })
  unfolding insert_execution new_execution
  inserted timer_id at now snapshot s h =
      elim (Bool-cases (any (same_slot timer_id at) s.db.executions)) [
        | inl t ↦ rw t h
        | inr t ↦ rw t (
          (λ le. rw (==_refl s.db.next_execution_id) refl),
          spared s.db.next_execution_id s.db.outbox s.db.executions h,
        )
      ]

  insert-Inserted :
      (timer_id : ℕ) (at now : Time) (snapshot : String)
      → Yields
          (λ s. Announced first s.db)
          (statement (insert_execution (new_execution timer_id at now snapshot)))
          Inserted
  insert-Inserted timer_id at now snapshot = record {
    at = λ s h.
        elim (statement_cases (insert_execution (new_execution timer_id at now snapshot)) s) [
          | inl c ↦ rw c.0 tt
          | inr c ↦ rw c.0 (moved _ s _ _ (sym c.1) (inserted timer_id at now snapshot s h))
        ];
  }
    where
      moved :
          (o : Option ℕ) (s : Session) (d : Database) (t : Session)
          → d ≡ t.db
          → Inserted (ok o) (record s { db = d })
          → Inserted (ok o) t
      moved none s d t e h = subst (Announced first) e h
      moved (some id) s d t e h = subst (AllButOne first id) e h

  -- The event of the one execution that had none.
  announce_it :
      (id : ℕ) (now : Time) (db : Database)
      → AllButOne first id db
      → Announced first (record db {
        outbox =
            record (new_execution_outbox_event id (ready_id id) execution_ready now now) {
              id = db.next_event_id;
            }
            ∷ db.outbox;
        next_event_id = db.next_event_id + 1;
      })
  unfolding new_execution_outbox_event
  announce_it id now db h =
      All-map_lem _ _ db.executions (λ e k le. there e (or_cases _ _ (k le))) h
    where
      there :
          (e : TimerExecution)
          → ((e.id == id) ≡ true) ⊎ (is_announced e.id db.outbox ≡ true)
          → ((id == e.id && id == e.id) || is_announced e.id db.outbox) ≡ true
      there e (inl t) = rw (eq_sym e.id id t) refl
        where
          eq_sym : (a b : ℕ) → (a == b) ≡ true → (b == a) ≡ true
          eq_sym a b h = ground arith
      there e (inr t) = or_right _ _ t

  -- What an INSERT of the event leaves: the event, or the refusal of a duplicate.
  abbrev EventInserted : Result (Result (Unit {0})) → Session → Type 0
  EventInserted (ok (ok done)) s = Announced first s.db
  EventInserted (ok (err e)) s = Unit {0}
  EventInserted (err e) s = Unit {0}

  event_inserted :
      (id : ℕ) (now : Time) (s : Session)
      → AllButOne first id s.db
      → EventInserted
          (ok
            (insert_event
              (new_execution_outbox_event id (ready_id id) execution_ready now now)
              s.db).0)
          (record s {
            db =
                (insert_event
                  (new_execution_outbox_event id (ready_id id) execution_ready now now)
                  s.db).1;
          })
  unfolding insert_event
  event_inserted id now s h =
      elim (Bool-cases (
        any
          (λ o.
            event_id_eq o.event_id
              (new_execution_outbox_event id (ready_id id) execution_ready now now).event_id)
          s.db.outbox)) [ inl t ↦ rw t tt | inr t ↦ rw t (announce_it id now s.db h) ]

  create_ready_event :
      (id : ℕ) (now : Time)
      → Ensures
          (AllButOne first id)
          (Announced first)
          (create_event (new_execution_outbox_event id (ready_id id) execution_ready now now))
  unfolding create_event
  create_ready_event id now = record {
    ends = Yields-bind EventInserted insertion (λ e s q. tt) handed_on;
  }
    where
      moved :
          (r : Result (Unit {0})) (s : Session) (d : Database) (t : Session)
          → d ≡ t.db
          → EventInserted (ok r) (record s { db = d })
          → EventInserted (ok r) t
      moved (ok done) s d t e h = subst (Announced first) e h
      moved (err x) s d t e h = tt

      insertion :
          Yields
            (λ s. AllButOne first id s.db)
            (statement
              (insert_event (new_execution_outbox_event id (ready_id id) execution_ready now now)))
            EventInserted
      insertion = record {
        at = λ s h.
            elim (statement_cases
              (insert_event (new_execution_outbox_event id (ready_id id) execution_ready now now))
              s) [
                | inl c ↦ rw c.0 tt
                | inr c ↦ rw c.0 (moved _ s _ _ (sym c.1) (event_inserted id now s h))
              ];
      }

      handed_on :
          (r : Result (Unit {0}))
          → Yields (EventInserted (ok r)) (from_result r) (OnSuccess (λ a. Announced first))
      handed_on (ok done) = Yields-pure done (λ s q. q)
      handed_on (err e) = Yields-raise e (λ s q. tt)

  announce-Announced :
      (now : Time) (result : ScheduleBatchResult) (created : Option ℕ)
      → Yields
          (Inserted (ok created))
          (announce now result created)
          (OnSuccess (λ a. Announced first))
  unfolding announce
  announce-Announced now result none = Yields-pure _ (λ s q. q)
  announce-Announced now result (some id) =
      (Ensures-bind (Announced first)
        (Ensures-wrap_error "create outbox event" (create_ready_event id now))
        (λ done. Ensures-pure _)).ends

  pub schedule_occurrence-Announced :
      (timer_id : ℕ) (snapshot : String) (now : Time) (result : ScheduleBatchResult) (at : Time)
      → Ensures
          (Announced first)
          (Announced first)
          (schedule_occurrence timer_id snapshot now result at)
  unfolding schedule_occurrence
  schedule_occurrence-Announced timer_id snapshot now result at = record {
    ends =
        Yields-bind Inserted
          (Yields-wrap_error _ (insert-Inserted timer_id at now snapshot) (λ e s q. tt))
          (λ e s q. tt) (announce-Announced now result);
  }
