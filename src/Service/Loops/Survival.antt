-- ===== src/Service/Loops/Survival.antt =====
-- The loops of Start when calls fail: a round that fails is not the last one.
use chrono_flow.Common.{
  if◌then◌else◌, length, ℕ, suc, String, ◌≡◌, refl, ap, ◌∙◌, Bool-cases, not, inl, inr, Bool, true,
  none, some, List, [], ◌∷◌,
}
use chrono_flow.Effect.{Result-cases, continue, ◌>>=◌, pure, try, Error, Result, ok, err}
use chrono_flow.Config.{SchedulerConfig, OutboxConfig, RecoveryConfig}
use chrono_flow.Model.Timer.{Time}
use chrono_flow.Model.Outbox.{OutboxEvent}
use chrono_flow.Database.{Sql, meanwhile, Database, Session}
use chrono_flow.Repository.Schedule.{Json}
use chrono_flow.Repository.Recovery.{RecoveryResult}
use chrono_flow.Service.Cron.{CronLibrary}
use chrono_flow.Service.Scheduler.{schedule}
use chrono_flow.Service.Dispatcher.{
  nothing_dispatched, refresh_backlog_metric, dispatch_event, dispatch_events, dispatch_once, Round,
  DispatchReport,
}
use chrono_flow.Service.Reconciler.{
  collect_execution_metrics, ReconcileReport, reconcile, run_cleanup,
}
use chrono_flow.Service.Loops.{
  on_ticks, start_scheduler, start_dispatcher, start_reconciler, on_reconciler_tick, wake_of,
  ReconcilerTick, scan, clean, Wake,
}

-- The action ends without an error.
pub record Returns {A : Type 0} (m : Sql A) : Type 0 where
  pub at : (s : Session) → (a : A) × ((m s).0 ≡ ok a)

Returns-pure : {A : Type 0} (a : A) → Returns (pure a)
unfolding pure
Returns-pure a = record { at = λ s. (a, refl) }

Returns-try : {A : Type 0} (m : Sql A) → Returns (try m)
unfolding try
Returns-try {A} m = record { at = λ s. go (m s) }
  where
    go :
        (r : Result A × Session)
        → (a : Result A) × ((continue {C = Result (Result A) × Session} r
              (λ a s'. (ok (ok a), s'))
              (λ e s'. (ok (err e), s'))).0
            ≡ ok a)
    go (ok a, s) = (ok a, refl)
    go (err e, s) = (err e, refl)

Returns-bind :
    {A B : Type 0} {m : Sql A} {f : A → Sql B}
    → Returns m
    → ((a : A) → Returns (f a))
    → Returns (m >>= f)
unfolding ◌>>=◌
Returns-bind {A} {B} {m = m} {f = f} h k = record { at = λ s. go (m s) (h.at s) }
  where
    go :
        (r : Result A × Session)
        → (a : A) × (r.0 ≡ ok a)
        → (b : B) × ((continue {C = Result B × Session} r f (λ e s'. (err e, s'))).0 ≡ ok b)
    go (ok a, s) q = (k a).at s
    go (err e, s) (a, q) = absurd (cc)

-- The actions after one that has returned.
bind_returned :
    {A B : Type 0} (m : Sql A) (f : A → Sql B) (s : Session) {a : A}
    → (m s).0 ≡ ok a
    → (m >>= f) s ≡ f a (m s).1
unfolding ◌>>=◌
bind_returned {A} {B} m f s e =
    ap (λ (r : Result A). continue {C = Result B × Session} (r, (m s).1) f (λ e s'. (err e, s'))) e

schedule-Returns :
    (library : CronLibrary) (cfg : SchedulerConfig) (json : Json) (unlocked : ℕ → Bool) (now : Time)
    → Returns (schedule library cfg json unlocked now)
unfolding schedule
schedule-Returns library cfg json unlocked now =
    Returns-bind (Returns-try _) (λ outcome. Returns-pure _)

refresh_backlog_metric-Returns : (report : DispatchReport) → Returns (refresh_backlog_metric report)
unfolding refresh_backlog_metric
refresh_backlog_metric-Returns report = Returns-bind (Returns-try _) (λ count. Returns-pure _)

module _ (cfg : OutboxConfig) (owner : String) (text_of : Error → String) (round : Round)
    (now : Time) where
  dispatch_event-Returns :
      (report : DispatchReport) (event : OutboxEvent)
      → Returns (dispatch_event cfg owner text_of round now report event)
  unfolding dispatch_event
  dispatch_event-Returns report event = elim (Result-cases (round.publish event)) [
    | inl (message_id, e) ↦
        rw (e, dispatch_event) (Returns-bind (Returns-try _) (λ marked. Returns-pure _))
    | inr (failure, e) ↦
        rw (e, dispatch_event) (Returns-bind (Returns-try _) (λ marked. Returns-pure _))
  ]

  dispatch_events-Returns :
      (report : DispatchReport) (events : List OutboxEvent)
      → Returns (dispatch_events cfg owner text_of round now report events)
  unfolding dispatch_events
  dispatch_events-Returns report [] = refresh_backlog_metric-Returns report
  dispatch_events-Returns report (event ∷ events) = elim (Bool-cases (round.live event)) [
    | inl e ↦ rw e (
        Returns-bind (dispatch_event-Returns report event)
          (λ counted. dispatch_events-Returns counted events))
    | inr e ↦ rw e (Returns-pure _)
  ]

  after_claim_batch :
      (claimed : Result (List OutboxEvent))
      → Returns (elim claimed [
        | err e ↦ refresh_backlog_metric nothing_dispatched
        | ok events ↦ dispatch_events cfg owner text_of round now nothing_dispatched events
      ])
  after_claim_batch (err e) = refresh_backlog_metric-Returns _
  after_claim_batch (ok events) = dispatch_events-Returns _ events

  dispatch_once-Returns :
      (unlocked : ℕ → Bool) → Returns (dispatch_once cfg owner text_of round unlocked now)
  unfolding dispatch_once
  dispatch_once-Returns unlocked = Returns-bind (Returns-try _) after_claim_batch

after_recovery :
    (outcome : Result RecoveryResult)
    → Returns (elim outcome as (λ k. Sql ReconcileReport) [
      | err e ↦ pure (none, none)
      | ok result ↦ do metrics ← collect_execution_metrics; pure (some result, metrics)
    ])
unfolding collect_execution_metrics
after_recovery (err e) = Returns-pure _
after_recovery (ok result) =
    Returns-bind (Returns-bind (Returns-try _) (λ counts. Returns-pure _))
      (λ metrics. Returns-pure _)

on_reconciler_tick-Returns :
    (cfg : RecoveryConfig) (tick : ReconcilerTick) → Returns (on_reconciler_tick cfg tick)
unfolding reconcile run_cleanup
on_reconciler_tick-Returns cfg (scan w) =
    Returns-bind (Returns-bind (Returns-try _) after_recovery) (λ report. Returns-pure _)
on_reconciler_tick-Returns cfg (clean w) =
    Returns-bind (Returns-bind (Returns-try _) (λ outcome. Returns-pure _))
      (λ report. Returns-pure _)

module _ {A B : Type 0} (others : A → Database → Database) (body : A → Sql B) where
  -- The session after a round for each tick, one after another: each begins with what other sessions
  -- have committed.
  abbrev pub after_rounds : List A → Session → Session
  after_rounds [] s = s
  after_rounds (tick ∷ ticks) s =
      after_rounds ticks (body tick (record s { db = others tick s.db })).1

  -- No round is left out: there is a report for each tick.
  abbrev pub AllRounds : List A → Session → Result (List B) × Session → Type 0
  AllRounds ticks s r =
      (reports : List B) × (r.0 ≡ ok reports)
      × (length reports ≡ length ticks)
      × (r.1 ≡ after_rounds ticks s)

  module _ (returns : (tick : A) → Returns (body tick)) where
    on_ticks-AllRounds :
        (ticks : List A) (s : Session) → AllRounds ticks s (on_ticks others body ticks s)
    unfolding on_ticks ◌>>=◌ pure meanwhile
    on_ticks-AllRounds [] s = ([], refl, refl, refl)
    on_ticks-AllRounds (tick ∷ ticks) s =
        let started : Session = record s { db = others tick s.db } in
        let next : Session = (body tick started).1 in
        let (report, e) = (returns tick).at started in
        let (reports, f, counted, last) = on_ticks-AllRounds ticks next in
        let whole =
          bind_returned (body tick) _ started e
          ∙ bind_returned (on_ticks others body ticks) (λ reports. pure (report ∷ reports)) next
              f in
        (
          report ∷ reports,
          ap (λ (r : Result (List B) × Session). r.0) whole,
          ap suc counted,
          ap (λ (r : Result (List B) × Session). r.1) whole ∙ last,
        )

enabled_runs :
    (recovery : RecoveryConfig) (first : Wake) (ticks : List ReconcilerTick) (s : Session)
    → recovery.enabled ≡ true
    → start_reconciler recovery first ticks s
      ≡ on_ticks (λ t. (wake_of t).others) (on_reconciler_tick recovery) (scan first ∷ ticks) s
unfolding start_reconciler
enabled_runs recovery first ticks s enabled =
    ap
      (λ b.
        (if not b
            then pure []
            else on_ticks (λ t. (wake_of t).others) (on_reconciler_tick recovery)
                (scan first ∷ ticks))
          s)
      enabled

-- Whichever statements fail, the loops of the scheduler, of the dispatcher and of an enabled reconciler
-- end without an error, with a report for the round at the start and for each tick, and the tables are
-- what these rounds make of them one after another: an error in a round stops no later one.
pub loops_go_on :
    (library : CronLibrary) (scheduler : SchedulerConfig) (json : Json) (first : Wake)
    (ticks : List Wake) (outbox : OutboxConfig) (owner : String) (text_of : Error → String)
    (first_round : Wake × Round) (rounds : List (Wake × Round)) (recovery : RecoveryConfig)
    (reconciler_ticks : List ReconcilerTick) (s : Session)
    → recovery.enabled ≡ true
    → AllRounds
        (λ (w : Wake). w.others)
        (λ w. schedule library scheduler json w.unlocked w.at)
        (first ∷ ticks)
        s
        (start_scheduler library scheduler json first ticks s)
      × AllRounds
          (λ (t : Wake × Round). t.0.others)
          (λ t. dispatch_once outbox owner text_of t.1 t.0.unlocked t.0.at)
          (first_round ∷ rounds)
          s
          (start_dispatcher outbox owner text_of first_round rounds s)
      × AllRounds
          (λ t. (wake_of t).others)
          (on_reconciler_tick recovery)
          (scan first ∷ reconciler_ticks)
          s
          (start_reconciler recovery first reconciler_ticks s)
unfolding start_scheduler start_dispatcher
loops_go_on library scheduler json first ticks outbox owner text_of first_round rounds recovery
      reconciler_ticks s enabled =
    (
      on_ticks-AllRounds _ _ (λ w. schedule-Returns library scheduler json w.unlocked w.at)
          (first ∷ ticks) s,
      on_ticks-AllRounds _ _
          (λ t. dispatch_once-Returns outbox owner text_of t.1 t.0.at t.0.unlocked)
          (first_round ∷ rounds) s,
      rw (enabled_runs recovery first reconciler_ticks s enabled) (
          on_ticks-AllRounds _ _ (on_reconciler_tick-Returns recovery)
            (scan first ∷ reconciler_ticks) s),
    )
