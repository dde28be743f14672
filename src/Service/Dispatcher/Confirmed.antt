-- ===== src/Service/Dispatcher/Confirmed.antt =====
-- What dispatchOnce (internal/service/outbox_dispatcher.go) records as published, and what Redis has
-- answered.
use chrono_flow.Common.{
  is_null, ==→eq, All, ℤ, ℕ, ◌+◌, String, ◌≡◌, sym, ap, inl, inr, Bool, true, false, not, List, [],
  ◌∷◌, arith,
}
use chrono_flow.Effect.{Result-cases, Error, Result, ok, err}
use chrono_flow.Effect.Keeps.{
  Keeps-pure, Keeps-bind, Keeps-wrap_error, Keeps-try, Keeps-require, Keeps-if, Keeps,
}
use chrono_flow.Config.{OutboxConfig}
use chrono_flow.Database.{statement, Database, Session}
use chrono_flow.Database.RowLaws.{All-update_where}
use chrono_flow.Database.SessionLaws.{Keeps-statement, Keeps-transaction, On, sql_rules}
use chrono_flow.Model.Timer.{Time}
use chrono_flow.Model.Outbox.{event_id_eq, OutboxEvent, EventId, ready_id, retry_id, recovery_id}
use chrono_flow.Repository.Outbox.{
  update_events, with_claim, claim_events, claim_unless_empty, claim_batch, is_owned, published,
  mark_published, attempt_failed, mark_failed, count_unpublished,
}
use chrono_flow.Service.Dispatcher.{
  nothing_dispatched, refresh_backlog_metric, dispatch_event, dispatch_events, dispatch_once, Round,
  DispatchReport,
}

event_id_eq→≡ : (a b : EventId) → event_id_eq a b ≡ true → a ≡ b
event_id_eq→≡ (ready_id e) (ready_id f) h = ap ready_id (==→eq e f h)
event_id_eq→≡ (retry_id e a) (retry_id f b) h = ground arith
event_id_eq→≡ (recovery_id e a) (recovery_id f b) h = ground arith
event_id_eq→≡ _ _ h = ground arith

-- A row that is published carries the message id that XADD has answered for an event of its id.
pub record IsConfirmed (round : Round) (o : OutboxEvent) : Type 0 where
  pub event : OutboxEvent
  pub same_event : event.event_id ≡ o.event_id
  pub answered : round.publish event ≡ ok o.published_message_id

abbrev pub PublishedConfirmed : Round → Database → Type 0
PublishedConfirmed round db =
    All (λ o. is_null o.published_at ≡ false → IsConfirmed round o) db.outbox

module _ (round : Round) where
  abbrev RowConfirmed : OutboxEvent → Type 0
  RowConfirmed o = is_null o.published_at ≡ false → IsConfirmed round o

  update_events-PublishedConfirmed :
      (p : OutboxEvent → Bool) (f : OutboxEvent → OutboxEvent)
      → ((o : OutboxEvent) → p o ≡ true → RowConfirmed o → RowConfirmed (f o))
      → Keeps (On (PublishedConfirmed round)) (statement (update_events p f))
  unfolding update_events
  update_events-PublishedConfirmed p f k =
      Keeps-statement (update_events p f) λ db h. All-update_where RowConfirmed p f db.outbox k h

  with_claim-RowConfirmed :
      (owner : String) (until : Time) (o : OutboxEvent)
      → RowConfirmed o
      → RowConfirmed (with_claim owner until o)
  unfolding with_claim
  with_claim-RowConfirmed owner until o k h = record {
    event = (k h).event;
    same_event = (k h).same_event;
    answered = (k h).answered;
  }

  attempt_failed-RowConfirmed :
      (error : String) (at : Time) (o : OutboxEvent)
      → RowConfirmed o
      → RowConfirmed (attempt_failed error at o)
  unfolding attempt_failed
  attempt_failed-RowConfirmed error at o k h = record {
    event = (k h).event;
    same_event = (k h).same_event;
    answered = (k h).answered;
  }

  published-RowConfirmed :
      (event : OutboxEvent) (owner message_id : String) (at : Time)
      → round.publish event ≡ ok message_id
      → (o : OutboxEvent) → is_owned event.event_id owner o ≡ true
      → RowConfirmed (published at message_id o)
  unfolding published is_owned
  published-RowConfirmed event owner message_id at e o t h = record {
    event = event;
    same_event = sym (event_id_eq→≡ o.event_id event.event_id (ground arith));
    answered = e;
  }

  claim_unless_empty-PublishedConfirmed :
      (owner : String) (until : Time) (events : List OutboxEvent)
      → Keeps (On (PublishedConfirmed round)) (claim_unless_empty owner until events)
  unfolding claim_events
  claim_unless_empty-PublishedConfirmed owner until [] = search sql_rules
  claim_unless_empty-PublishedConfirmed owner until (e ∷ es) =
      search (sql_rules, update_events-PublishedConfirmed, with_claim-RowConfirmed) depth 12

  claim_batch-PublishedConfirmed :
      (unlocked : ℕ → Bool) (owner : String) (now : Time) (batch : ℤ) (ttl : ℕ)
      → Keeps (On (PublishedConfirmed round)) (claim_batch unlocked owner now batch ttl)
  unfolding claim_batch
  claim_batch-PublishedConfirmed unlocked owner now batch ttl =
      Keeps-transaction
        (Keeps-bind (search sql_rules) (claim_unless_empty-PublishedConfirmed owner (now + ttl)))

  mark_failed-PublishedConfirmed :
      (event_id : EventId) (owner error : String) (at : Time)
      → Keeps (On (PublishedConfirmed round)) (mark_failed event_id owner error at)
  unfolding mark_failed
  mark_failed-PublishedConfirmed event_id owner error at =
      search (sql_rules, update_events-PublishedConfirmed, attempt_failed-RowConfirmed) depth 12

  mark_published-PublishedConfirmed :
      (event : OutboxEvent) (owner message_id : String) (at : Time)
      → round.publish event ≡ ok message_id
      → Keeps (On (PublishedConfirmed round)) (mark_published event.event_id owner message_id at)
  unfolding mark_published
  mark_published-PublishedConfirmed event owner message_id at e =
      Keeps-bind
        (Keeps-wrap_error _ (
          update_events-PublishedConfirmed _ _
            (λ o t k. published-RowConfirmed event owner message_id at e o t)))
        λ n. Keeps-require _ _

  module _ (cfg : OutboxConfig) (owner : String) (text_of : Error → String) where
    dispatch_event-PublishedConfirmed :
        (now : Time) (report : DispatchReport) (event : OutboxEvent)
        → Keeps
            (On (PublishedConfirmed round))
            (dispatch_event cfg owner text_of round now report event)
    unfolding dispatch_event
    dispatch_event-PublishedConfirmed now report event = elim (Result-cases (round.publish event)) [
      | inl (message_id, e) ↦
          rw (e, dispatch_event)
            (Keeps-bind
              (Keeps-try (
                mark_published-PublishedConfirmed event owner message_id (round.published_at event)
                  e))
              (λ r. Keeps-pure _))
      | inr (failure, e) ↦
          rw (e, dispatch_event)
            (Keeps-bind (Keeps-try (mark_failed-PublishedConfirmed _ _ _ _)) (λ r. Keeps-pure _))
    ]

    backlog-PublishedConfirmed :
        (report : DispatchReport)
        → Keeps (On (PublishedConfirmed round)) (refresh_backlog_metric report)
    unfolding refresh_backlog_metric count_unpublished
    backlog-PublishedConfirmed report = search sql_rules depth 8

    dispatch_events-PublishedConfirmed :
        (now : Time) (report : DispatchReport) (events : List OutboxEvent)
        → Keeps
            (On (PublishedConfirmed round))
            (dispatch_events cfg owner text_of round now report events)
    unfolding dispatch_events
    dispatch_events-PublishedConfirmed now report [] = backlog-PublishedConfirmed report
    dispatch_events-PublishedConfirmed now report (event ∷ events) =
        Keeps-if (not (round.live event)) (Keeps-pure report) (
          Keeps-bind (dispatch_event-PublishedConfirmed now report event)
            (λ counted. dispatch_events-PublishedConfirmed now counted events))

    dispatch_once-Keeps :
        (unlocked : ℕ → Bool) (now : Time)
        → Keeps (On (PublishedConfirmed round)) (dispatch_once cfg owner text_of round unlocked now)
    unfolding dispatch_once
    dispatch_once-Keeps unlocked now =
        Keeps-bind (Keeps-try (claim_batch-PublishedConfirmed unlocked owner now _ _)) after
      where
        after :
            (claimed : Result (List OutboxEvent))
            → Keeps (On (PublishedConfirmed round)) (elim claimed [
              | err e ↦ refresh_backlog_metric nothing_dispatched
              | ok events ↦ dispatch_events cfg owner text_of round now nothing_dispatched events
            ])
        after (ok events) = dispatch_events-PublishedConfirmed now _ events
        after (err e) = backlog-PublishedConfirmed _

    -- A dispatch round, whichever of its statements and publications fail and wherever it is cut
    -- short, keeps this: each row that is recorded as published carries the message id that Redis has
    -- answered for an event of its event id.
    pub dispatch_once-PublishedConfirmed :
        (unlocked : ℕ → Bool) (now : Time) (s : Session)
        → PublishedConfirmed round s.db
        → PublishedConfirmed round (dispatch_once cfg owner text_of round unlocked now s).1.db
    dispatch_once-PublishedConfirmed unlocked now s h =
        ((dispatch_once-Keeps unlocked now).at s (record { holds = h })).holds
