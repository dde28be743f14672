-- ===== src/Service/Scheduler/Overdue.antt =====
-- Timers that missed their time: the overdue branch of resolveTimer (internal/service/scheduler.go).
use chrono_flow.Common.{
  ltb, lt→ltb, ◌+◌, ◌-◌, ◌<◌, ◌≡◌, refl, ◌≢◌, ◌⊎◌, inl, inr, true, some, List, [], ◌∷◌, arith,
}
use chrono_flow.Effect.{ok}
use chrono_flow.Model.Timer.{
  Time, TimerDefinition, MisfirePolicy, skip, fire_once, catch_up, empty, other,
}
use chrono_flow.Config.{seconds, SchedulerConfig}
use chrono_flow.Service.Cron.{
  CronLibrary, and_then-ok, next_trigger_time, Advances, next_trigger_time_later,
}
use chrono_flow.Service.Scheduler.{with_default, resolve_misfire, resolve_at, resolve_timer}

-- What the policies without catching up create: SKIP nothing; FIRE_ONCE, and no policy, the time that
-- was missed.
abbrev pub Fires : MisfirePolicy → Time → List Time → Type 0
Fires policy current occurrences =
    ((policy ≡ skip) × (occurrences ≡ []))
    ⊎ (((policy ≡ fire_once) ⊎ (policy ≡ empty)) × (occurrences ≡ current ∷ []))

-- The policy that an empty one stands for fires as the empty one does.
default-Fires :
    (policy : MisfirePolicy) {current : Time} {occurrences : List Time}
    → Fires (with_default policy) current occurrences
    → Fires policy current occurrences
default-Fires skip h = h
default-Fires fire_once h = h
default-Fires catch_up h = h
default-Fires (other text) h = h
default-Fires empty (inl h) = cc
default-Fires empty (inr h) = inr (inr refl, h.1)

default_other : (policy : MisfirePolicy) → policy ≢ catch_up → with_default policy ≢ catch_up
default_other skip h = h
default_other fire_once h = h
default_other catch_up h = h
default_other (other text) h = h
default_other empty h = λ e. cc

module _ (library : CronLibrary) (cfg : SchedulerConfig) (advances : Advances library) where
  module _ (definition : TimerDefinition) (now current next : Time) where
    misfire :
        (policy : MisfirePolicy) {occurrences : List Time}
        → policy ≢ catch_up
        → resolve_misfire library cfg policy definition current now ≡ ok (occurrences, some next)
        → (now < next) × Fires policy current occurrences
    unfolding resolve_misfire
    misfire skip other_policy h =
        let (t, e, f) = and_then-ok (next_trigger_time library definition.cron_expr now) _ h in
        let later = next_trigger_time_later library advances definition.cron_expr now t e in
        ground arith
    misfire fire_once other_policy h =
        let (t, e, f) = and_then-ok (next_trigger_time library definition.cron_expr now) _ h in
        let later = next_trigger_time_later library advances definition.cron_expr now t e in
        ground arith
    misfire catch_up other_policy h = absurd (other_policy refl)
    misfire empty other_policy h = ground arith
    misfire (other text) other_policy h = ground arith

    overdue_at :
        {occurrences : List Time}
        → current + seconds cfg.misfire_grace_seconds < now
        → definition.misfire_policy ≢ catch_up
        → resolve_at library cfg definition current now ≡ ok (occurrences, some next)
        → (now < next) × Fires definition.misfire_policy current occurrences
    unfolding resolve_at
    overdue_at late other_policy h =
        let (later, fired) =
          misfire (with_default definition.misfire_policy)
            (default_other definition.misfire_policy other_policy)
            (rw (overdue, resolve_at) at h) in
        (later, default-Fires definition.misfire_policy fired)
      where
        overdue : ltb (seconds cfg.misfire_grace_seconds) (now - current) ≡ true
        overdue = lt→ltb _ _ (omega arith)

  -- A timer that is overdue by more than the grace period, and whose policy is not to catch up, is
  -- moved past the present: its new next_fire_at is later than now. It fires once for the time that
  -- it missed if the policy is FIRE_ONCE or empty, and not at all if it is SKIP.
  pub overdue_resolution :
      (definition : TimerDefinition) (now current next : Time) {occurrences : List Time}
      → definition.next_fire_at ≡ some current
      → current + seconds cfg.misfire_grace_seconds < now
      → definition.misfire_policy ≢ catch_up
      → resolve_timer library cfg definition now ≡ ok (occurrences, some next)
      → (now < next) × Fires definition.misfire_policy current occurrences
  unfolding resolve_timer
  overdue_resolution definition now current next at late other_policy h =
      overdue_at definition now current next late other_policy (rw (at, resolve_timer) at h)
