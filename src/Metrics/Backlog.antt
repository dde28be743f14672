-- ===== src/Metrics/Backlog.antt =====
-- The gauge of the backlog after a round of the dispatcher.
use chrono_flow.Common.{
  is_null, Bool-cases, ℕ, String, ◌≡◌, refl, inl, inr, Bool, none, some, List, [], ◌∷◌,
}
use chrono_flow.Effect.{Result-cases, pure, Error, Result, ok, err}
use chrono_flow.Effect.Yields.{Yields-pure, Yields-bind, Yields-when, Yields}
use chrono_flow.Config.{OutboxConfig}
use chrono_flow.Model.Timer.{Time}
use chrono_flow.Model.Outbox.{OutboxEvent}
use chrono_flow.Database.{count_where, Sql, Database, Session}
use chrono_flow.Database.Outcomes.{OnSuccess}
use chrono_flow.Repository.Outbox.{count_unpublished}
use chrono_flow.Service.Dispatcher.{
  nothing_dispatched, backlog_of, refresh_backlog_metric, count_publication, dispatch_event,
  dispatch_events, dispatch_once, Round, DispatchReport,
}
use chrono_flow.Metrics.{after_dispatch, Vectors, Reporter}
use chrono_flow.Metrics.Gauges.{Anything, Tried, Tried-query, Shows}

abbrev pub unpublished : Database → ℕ
unpublished db = count_where (λ o. is_null o.published_at) db.outbox

backlog-Shows :
    (report : DispatchReport)
    → Yields Anything (refresh_backlog_metric report) (OnSuccess (λ r. Shows unpublished r.backlog))
unfolding refresh_backlog_metric count_unpublished
backlog-Shows report = Yields-bind (Tried _) (Tried-query _ _) (λ e s q. tt) shown
  where
    shown :
        (r : Result ℕ)
        → Yields
            (Tried unpublished (ok r))
            (pure (record report { backlog = backlog_of r }))
            (OnSuccess (λ r. Shows unpublished r.backlog))
    shown (ok n) = Yields-pure _ (λ s q. q)
    shown (err e) = Yields-pure _ (λ s q. tt)

abbrev Unread : DispatchReport → Database → Type 0
Unread report db = report.backlog ≡ none

dispatch_event-Unread :
    (cfg : OutboxConfig) (owner : String) (text_of : Error → String) (round : Round) (now : Time)
    (report : DispatchReport) (event : OutboxEvent)
    → report.backlog ≡ none
    → Yields Anything (dispatch_event cfg owner text_of round now report event) (OnSuccess Unread)
unfolding dispatch_event
dispatch_event-Unread cfg owner text_of round now report event h =
    elim (Result-cases (round.publish event)) [
      | inl (message_id, e) ↦
          rw (e, dispatch_event)
            (Yields-bind (λ r s. Unit {0}) (record { at = λ s p. tt }) (λ e s q. tt) counted_once)
      | inr (failure, e) ↦
          rw (e, dispatch_event)
            (Yields-bind (λ r s. Unit {0}) (record { at = λ s p. tt }) (λ e s q. tt)
              λ r. Yields-pure _ (λ s q. h))
    ]
  where
    counted_once :
        (r : Result (Unit {0}))
        → Yields Anything (pure (count_publication report r)) (OnSuccess Unread)
    counted_once (ok u) = Yields-pure _ (λ s q. h)
    counted_once (err e) = Yields-pure _ (λ s q. h)

dispatch_events-Shows :
    (cfg : OutboxConfig) (owner : String) (text_of : Error → String) (round : Round) (now : Time)
    (events : List OutboxEvent) (report : DispatchReport)
    → Yields
        (λ s. report.backlog ≡ none)
        (dispatch_events cfg owner text_of round now report events)
        (OnSuccess (λ r. Shows unpublished r.backlog))
unfolding dispatch_events pure
dispatch_events-Shows cfg owner text_of round now [] report =
    Yields-when Anything (λ s h. tt) (backlog-Shows report)
dispatch_events-Shows cfg owner text_of round now (event ∷ events) report = record {
  at = λ s h. elim (Bool-cases (round.live event)) [
    | inl t ↦ rw t (
        (Yields-bind (OnSuccess Unread)
            (dispatch_event-Unread cfg owner text_of round now report event h) (λ e s q. tt)
            λ r. dispatch_events-Shows cfg owner text_of round now events r).at
          s tt)
    | inr t ↦ rw (t, h) tt
  ];
}

after_claiming-Shows :
    (cfg : OutboxConfig) (owner : String) (text_of : Error → String) (round : Round) (now : Time)
    (claimed : Result (List OutboxEvent))
    → Yields Anything
        (elim claimed as (λ k. Sql DispatchReport) [
          | err e ↦ refresh_backlog_metric nothing_dispatched
          | ok events ↦ dispatch_events cfg owner text_of round now nothing_dispatched events
        ])
        (OnSuccess (λ r. Shows unpublished r.backlog))
after_claiming-Shows cfg owner text_of round now (err e) = backlog-Shows _
after_claiming-Shows cfg owner text_of round now (ok events) =
    Yields-when (λ s. _) (λ s h. refl)
      (dispatch_events-Shows cfg owner text_of round now events nothing_dispatched)

dispatch_once-Shows :
    (cfg : OutboxConfig) (owner : String) (text_of : Error → String) (round : Round)
    (unlocked : ℕ → Bool) (now : Time)
    → Yields Anything
        (dispatch_once cfg owner text_of round unlocked now)
        (OnSuccess (λ r. Shows unpublished r.backlog))
unfolding dispatch_once
dispatch_once-Shows cfg owner text_of round unlocked now =
    Yields-bind (λ r s. Unit {0}) (record { at = λ s p. tt }) (λ e s q. tt)
      (after_claiming-Shows cfg owner text_of round now)

-- Once a round of the dispatcher has read the backlog, its gauge is the number of the events that are
-- not published at the end of the round, also when the context or a statement has failed before.
pub backlog_shown :
    (vectors : Vectors) (cfg : OutboxConfig) (owner : String) (text_of : Error → String)
    (round : Round) (unlocked : ℕ → Bool) (now : Time) (s : Session) (r : Reporter vectors)
    {report : DispatchReport} {backlog : ℕ}
    → (dispatch_once cfg owner text_of round unlocked now s).0 ≡ ok report
    → report.backlog ≡ some backlog
    → (after_dispatch vectors report r).outbox_unpublished
      ≡ unpublished (dispatch_once cfg owner text_of round unlocked now s).1.db
unfolding after_dispatch
backlog_shown vectors cfg owner text_of round unlocked now s r dispatched read =
    let shown =
      rw dispatched at ((dispatch_once-Shows cfg owner text_of round unlocked now).at s tt) in
    let known = rw read at shown in rw read known
