-- ===== src/Service/Scheduler/Resolution.antt =====
-- What resolveTimer (internal/service/scheduler.go) answers for a due timer, whatever its policy.
use chrono_flow.Common.{
  ltb, Bool-cases, length, All, ℕ, suc, ◌-◌, ◌≤◌, ◌<◌, ◌≡◌, ◌⊎◌, inl, inr, not, ◌&&◌, Option, some,
  List, [], ◌∷◌, arith,
}
use chrono_flow.Effect.{Result, ok}
use chrono_flow.Model.Timer.{
  Time, TimerDefinition, MisfirePolicy, skip, fire_once, catch_up, empty, other,
}
use chrono_flow.Config.{seconds, SchedulerConfig}
use chrono_flow.Service.Cron.{
  CronLibrary, and_then, and_then-ok, next_trigger_time, Advances, next_trigger_time_later,
}
use chrono_flow.Service.Scheduler.{
  catch_up_loop, with_default, is_catch_up, catch_up_limit, resolve_misfire, resolve_at,
  resolve_timer,
}
use chrono_flow.Service.Scheduler.CatchUp.{catch_up_loop_lem, CaughtUp, Triggers, stop, fire}

-- low ≤ t₁ < t₂ < … < high
abbrev pub Ascending : Time → List Time → Time → Type 0
Ascending low [] high = low ≤ high
Ascending low (t ∷ ts) high = (low ≤ t) × Ascending (suc t) ts high

Ascending-mono :
    (a b : Time) (ts : List Time) (high : Time) → a ≤ b → Ascending b ts high → Ascending a ts high
Ascending-mono a b [] high le h = omega arith
Ascending-mono a b (t ∷ ts) high le h = (omega arith, h.1)

Triggers-Ascending :
    (next_after : Time → Result Time) (now : Time)
    → ((t u : Time) → next_after t ≡ ok u → t < u)
    → {t rest : Time} {ts : List Time} → Triggers next_after now t ts rest
    → Ascending t ts rest
Triggers-Ascending next_after now later stop = omega arith
Triggers-Ascending next_after now later (fire {t = t} {u = u} {rest = rest} {ts = ts} le e h) = (
  omega arith,
  Ascending-mono (suc t) u ts rest (later t u e) (Triggers-Ascending next_after now later h),
)

Triggers-reached :
    (next_after : Time → Result Time) (now : Time)
    → {t rest : Time} {ts : List Time} → Triggers next_after now t ts rest
    → All (λ s. s ≤ now) ts
Triggers-reached next_after now stop = tt
Triggers-reached next_after now (fire le e h) = (le, Triggers-reached next_after now h)

Ascending-le : (a : Time) (ts : List Time) (high : Time) → Ascending a ts high → a ≤ high
Ascending-le a [] high h = h
Ascending-le a (t ∷ ts) high h = omega (arith, Ascending-le (suc t) ts high h.1)

Triggers-advance :
    (next_after : Time → Result Time) (now : Time)
    → ((t u : Time) → next_after t ≡ ok u → t < u)
    → (bound : ℕ) → 0 < bound
    → {t rest : Time} {ts : List Time} → Triggers next_after now t ts rest
    → t ≤ now
    → (now < rest) ⊎ (length ts ≡ bound)
    → t < rest
Triggers-advance next_after now later bound room stop due over = ground arith
Triggers-advance next_after now later bound room
      (fire {t = t} {u = u} {rest = rest} {ts = ts} le e h) due over =
    omega (arith, later t u e, Ascending-le u ts rest (Triggers-Ascending next_after now later h))

-- The occurrences of a due timer lie between its next_fire_at and now, each once and in order, at
-- most `bound` of them; the new next_fire_at is later than all of them and than the old one.
pub record IsProgress (current now : Time) (bound : ℕ) (occurrences : List Time) (next : Time)
    : Type 0 where
  pub ordered : Ascending current occurrences next
  pub reached : All (λ t. t ≤ now) occurrences
  pub bounded : length occurrences ≤ bound
  pub advanced : current < next

module _ (current now next : Time) (bound : ℕ) (due : current ≤ now) (room : 0 < bound) where
  none_fired : now < next → IsProgress current now bound [] next
  none_fired h = record {
    ordered = omega arith;
    reached = tt;
    bounded = omega arith;
    advanced = omega arith;
  }

  one_fired : current < next → IsProgress current now bound (current ∷ []) next
  one_fired h = record {
    ordered = (omega arith, omega arith);
    reached = (due, tt);
    bounded = omega arith;
    advanced = omega arith;
  }

module _ (library : CronLibrary) (cfg : SchedulerConfig) (advances : Advances library) where
  open_limit : TimerDefinition → ℕ
  open_limit definition = catch_up_limit definition.max_catch_up cfg.default_max_catch_up

  module _ (definition : TimerDefinition) (current now : Time) (due : current ≤ now) where
    later : (t u : Time) → next_trigger_time library definition.cron_expr t ≡ ok u → t < u
    later t u e = next_trigger_time_later library advances definition.cron_expr t u e

    caught_up :
        (bound : ℕ) (occurrences : List Time) (next : Time)
        → 0 < bound
        → CaughtUp
            (next_trigger_time library definition.cron_expr)
            now
            bound
            current
            []
            occurrences
            next
        → IsProgress current now bound occurrences next
    caught_up bound occurrences next room c = rw c.appended (record {
      ordered = Triggers-Ascending _ now later c.triggers;
      reached = Triggers-reached _ now c.triggers;
      bounded = c.bounded;
      advanced = Triggers-advance _ now later bound room c.triggers due c.exhausted;
    })

    resolve_misfire-IsProgress :
        (policy : MisfirePolicy) {occurrences : List Time} {o : Option Time}
        → 0 < open_limit definition
        → resolve_misfire library cfg policy definition current now ≡ ok (occurrences, o)
        → (next : Time) × (o ≡ some next)
          × IsProgress current now (open_limit definition) occurrences next
    unfolding resolve_misfire open_limit
    resolve_misfire-IsProgress skip {occurrences} {o} room h =
        let (next, e, f) = and_then-ok (next_trigger_time library definition.cron_expr now) _ h in
        let nothing : [] ≡ occurrences = ground arith in
        rw (← nothing)
          (next, ground arith, none_fired current now next _ due room (later now next e))
    resolve_misfire-IsProgress fire_once {occurrences} {o} room h =
        let (next, e, f) = and_then-ok (next_trigger_time library definition.cron_expr now) _ h in
        let one : current ∷ [] ≡ occurrences = ground arith in
        rw (← one) (
          next,
          ground arith,
          one_fired current now next _ due room (omega (arith, later now next e)),
        )
    resolve_misfire-IsProgress catch_up {occurrences} {o} room h =
        let (r, e, f) = and_then-ok (catch_up_loop _ now (open_limit definition) [] current) _ h in
        let all : r.0 ≡ occurrences = ground arith in
        rw (← all) (
          r.1,
          ground arith,
          caught_up (open_limit definition) r.0 r.1 room
              (catch_up_loop_lem _ now (open_limit definition) [] current e),
        )
    resolve_misfire-IsProgress empty room h = ground arith
    resolve_misfire-IsProgress (other text) room h = ground arith

    resolve_at-IsProgress :
        {occurrences : List Time} {o : Option Time}
        → 0 < open_limit definition
        → resolve_at library cfg definition current now ≡ ok (occurrences, o)
        → (next : Time) × (o ≡ some next)
          × IsProgress current now (open_limit definition) occurrences next
    unfolding resolve_at
    resolve_at-IsProgress {occurrences} {o} room h =
        elim (Bool-cases (
          not (ltb (seconds cfg.misfire_grace_seconds) (now - current))
          && not (is_catch_up (with_default definition.misfire_policy)))) [
            | inl e ↦ on_time (rw (e, resolve_at) at h)
            | inr e ↦
                resolve_misfire-IsProgress (with_default definition.misfire_policy) room
                  (rw (e, resolve_at) at h)
          ]
      where
        on_time :
            and_then {B = List Time × Option Time}
                (next_trigger_time library definition.cron_expr current)
                (λ next. ok (current ∷ [], some next))
              ≡ ok (occurrences, o)
            → (next : Time) × (o ≡ some next)
              × IsProgress current now (open_limit definition) occurrences next
        on_time h =
            let (next, e, f) =
              and_then-ok (next_trigger_time library definition.cron_expr current) _ h in
            let one : current ∷ [] ≡ occurrences = ground arith in
            rw (← one)
              (next, ground arith, one_fired current now next _ due room (later current next e))

  -- Whatever the policy, a timer that is due is resolved to occurrences between its next_fire_at and
  -- now, in order and without repetition, at most as many as the limit for catching up, and to a new
  -- next_fire_at that is later than each of them and than the old one, provided that the cron library
  -- moves forward and that the limit is positive.
  pub resolve_timer-IsProgress :
      (definition : TimerDefinition) (now : Time) {current : Time} {occurrences : List Time}
      {o : Option Time}
      → definition.next_fire_at ≡ some current
      → current ≤ now
      → 0 < catch_up_limit definition.max_catch_up cfg.default_max_catch_up
      → resolve_timer library cfg definition now ≡ ok (occurrences, o)
      → (next : Time) × (o ≡ some next)
        × IsProgress current now
            (catch_up_limit definition.max_catch_up cfg.default_max_catch_up)
            occurrences
            next
  unfolding resolve_timer open_limit
  resolve_timer-IsProgress definition now {current} at due room h =
      resolve_at-IsProgress definition current now due room (rw (at, resolve_timer) at h)
