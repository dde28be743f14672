-- ===== src/Repository/Outbox/Published.antt =====
-- Who may record a publication, and how often: MarkPublished and MarkFailed of
-- internal/repository/outbox_repo.go.
use mathlib.Core.Path.{subst}
use chrono_flow.Common.{
  ◌==◌, ==→eq, Bool-cases, ℕ, ◌+◌, ◌≤◌, String, ◌≡◌, refl, inl, inr, Bool, true, false, List, [],
  ◌∷◌, arith,
}
use chrono_flow.Database.{update_where, count_where, statement, run_sql, Database, Session}
use chrono_flow.Model.Timer.{Time}
use chrono_flow.Model.Outbox.{event_id_eq, OutboxEvent, EventId}
use chrono_flow.Repository.Outbox.{
  update_events, is_owned, published, mark_published, attempt_failed, mark_failed,
}
use chrono_flow.Effect.{require, Error, Result, ok, err}
use chrono_flow.Effect.Yields.{Yields-pure, Yields-raise, Yields-bind, Yields-wrap_error, Yields}
use chrono_flow.Database.RowLaws.{update_where_none}
use chrono_flow.Database.SessionLaws.{statement_cases}
use chrono_flow.Database.Outcomes.{OnSuccess}

abbrev pub has_event_id : EventId → OutboxEvent → Bool
has_event_id event_id o = event_id_eq o.event_id event_id

-- The table holds the event at most once, as the unique key on event_id demands.
abbrev pub AtMostOnce : EventId → List OutboxEvent → Type 0
AtMostOnce event_id os = count_where (has_event_id event_id) os ≤ 1

require-Yields :
    (b : Bool) (e : Error) (R : Database → Type 0)
    → Yields (λ s. b ≡ true → R s.db) (require b e) (OnSuccess (λ done. R))
unfolding require
require-Yields true e R = Yields-pure tt (λ s q. q refl)
require-Yields false e R = Yields-raise e (λ s q. tt)

module _ (event_id : EventId) where
  count_owned_le :
      (owner : String) (os : List OutboxEvent)
      → count_where (is_owned event_id owner) os ≤ count_where (has_event_id event_id) os
  unfolding count_where is_owned
  count_owned_le owner [] = omega arith
  count_owned_le owner (o ∷ os) = ground (arith, count_owned_le owner os)

  owned_has :
      (owner : String) (o : OutboxEvent)
      → is_owned event_id owner o ≡ true
      → has_event_id event_id o ≡ true
  unfolding is_owned
  owned_has owner o h = ground arith

  unowned :
      (owner : String) (o : OutboxEvent)
      → has_event_id event_id o ≡ false
      → is_owned event_id owner o ≡ false
  unfolding is_owned
  unowned owner o h = ground arith

  module _ (owner : String) (at : Time) (message_id : String) where
    published_unowned :
        (other : String) (o : OutboxEvent)
        → is_owned event_id other (published at message_id o) ≡ false
    unfolding is_owned published
    published_unowned other_owner o = ground arith

    unowned_after :
        (other : String) (os : List OutboxEvent)
        → AtMostOnce event_id os
        → count_where (is_owned event_id owner) os ≡ 1
        → count_where
            (is_owned event_id other)
            (update_where (is_owned event_id owner) (published at message_id) os)
          ≡ 0
    unfolding count_where update_where
    unowned_after other_owner [] u c = refl
    unowned_after other_owner (o ∷ os) u c = elim (Bool-cases (is_owned event_id owner o)) [
      | inl t ↦
          let room : 1 + count_where (has_event_id event_id) os ≤ 1 =
            rw (owned_has owner o t) at u in
          let none_owned = count_owned_le owner os in
          rw
            (
              t,
              published_unowned other_owner o,
              update_where_none (is_owned event_id owner) (published at message_id) os
                  (omega arith),
            )
            (omega (arith, count_owned_le other_owner os))
      | inr t ↦
          let count : 0 + count_where (is_owned event_id owner) os ≡ 1 = rw t at c in
          elim (Bool-cases (has_event_id event_id o)) [
            | inl h ↦
                let room : 1 + count_where (has_event_id event_id) os ≤ 1 = rw h at u in
                absurd (omega (arith, count_owned_le owner os))
            | inr h ↦
                let room : 0 + count_where (has_event_id event_id) os ≤ 1 = rw h at u in
                rw (t, unowned other_owner o h)
                  (omega (arith, unowned_after other_owner os (omega arith) (omega arith)))
          ]
    ]

    abbrev Recorded : Database → Type 0
    Recorded db = (other : String) → count_where (is_owned event_id other) db.outbox ≡ 0

    abbrev CountRecorded : Result ℕ → Session → Type 0
    CountRecorded (ok n) s = (n == 1) ≡ true → Recorded s.db
    CountRecorded (err e) s = Unit {0}

    update-Recorded :
        Yields
          (λ s. AtMostOnce event_id s.db.outbox)
          (statement (update_events (is_owned event_id owner) (published at message_id)))
          CountRecorded
    unfolding update_events
    update-Recorded = record {
      at = λ s u.
          elim (statement_cases (update_events (is_owned event_id owner) (published at message_id))
            s) [
              | inl c ↦ rw c.0 tt
              | inr c ↦
                  rw (c.0, c.1)
                    (λ one other_owner. unowned_after other_owner s.db.outbox u (==→eq _ 1 one))
            ];
    }

    mark_published-Recorded :
        Yields
          (λ s. AtMostOnce event_id s.db.outbox)
          (mark_published event_id owner message_id at)
          (OnSuccess (λ done. Recorded))
    unfolding mark_published
    mark_published-Recorded =
        Yields-bind CountRecorded (Yields-wrap_error _ update-Recorded (λ e s q. tt)) (λ e s q. tt)
          (λ n. require-Yields (n == 1) _ Recorded)

abbrev pub succeeds : Result (Unit {0}) → Bool
succeeds (ok done) = true
succeeds (err e) = false

module _ (event_id : EventId) (owner message_id last_error : String) (at : Time) where
  -- Without a row of its own, a call fails and leaves the tables alone.
  refused :
      (s : Session)
      → count_where (is_owned event_id owner) s.db.outbox ≡ 0
      → ((succeeds (mark_published event_id owner message_id at s).0 ≡ false)
          × ((mark_published event_id owner message_id at s).1.db ≡ s.db))
        × ((succeeds (mark_failed event_id owner last_error at s).0 ≡ false)
            × ((mark_failed event_id owner last_error at s).1.db ≡ s.db))
  unfolding mark_published mark_failed update_events run_sql
  refused s h = go s.db s.faults h
    where
      go :
          (db : Database) (fs : List Bool)
          → count_where (is_owned event_id owner) db.outbox ≡ 0
          → let s : Session = record { db = db; faults = fs } in
            ((succeeds (mark_published event_id owner message_id at s).0 ≡ false)
              × ((mark_published event_id owner message_id at s).1.db ≡ db))
            × ((succeeds (mark_failed event_id owner last_error at s).0 ≡ false)
                × ((mark_failed event_id owner last_error at s).1.db ≡ db))
      go db [] h =
          rw
            (
              h,
              update_where_none (is_owned event_id owner) (published at message_id) db.outbox h,
              update_where_none (is_owned event_id owner) (attempt_failed last_error at) db.outbox
                  h,
            )
            ((refl, refl), (refl, refl))
      go db (false ∷ fs) h =
          rw
            (
              h,
              update_where_none (is_owned event_id owner) (published at message_id) db.outbox h,
              update_where_none (is_owned event_id owner) (attempt_failed last_error at) db.outbox
                  h,
            )
            ((refl, refl), (refl, refl))
      go db (true ∷ fs) h = ((refl, refl), (refl, refl))

-- Once a publication of an event that the table holds once has been recorded, no dispatcher, its own
-- one included, can record another publication or a failure of it: the calls return an error and
-- change nothing.
pub published_once :
    (event_id : EventId) (owner message_id : String) (at : Time) (s : Session)
    → AtMostOnce event_id s.db.outbox
    → (mark_published event_id owner message_id at s).0 ≡ ok tt
    → (other_owner other_id last_error : String) (later : Time)
    → let done = (mark_published event_id owner message_id at s).1 in
      ((succeeds (mark_published event_id other_owner other_id later done).0 ≡ false)
        × ((mark_published event_id other_owner other_id later done).1.db ≡ done.db))
      × ((succeeds (mark_failed event_id other_owner last_error later done).0 ≡ false)
          × ((mark_failed event_id other_owner last_error later done).1.db ≡ done.db))
published_once event_id owner message_id at s u e other_owner other_id last_error later =
    refused event_id other_owner other_id last_error later
      (mark_published event_id owner message_id at s).1
      (subst
        (λ r.
          OnSuccess (λ done. Recorded event_id owner at message_id) r
            (mark_published event_id owner message_id at s).1)
        e ((mark_published-Recorded event_id owner at message_id).at s u) other_owner)
