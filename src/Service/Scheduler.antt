-- ===== src/Service/Scheduler.antt =====
-- internal/service/scheduler.go
pub mod CatchUp
pub mod Overdue
pub mod Resolution
use chrono_flow.Common.{
  ltb, if◌then◌else◌, pos_part, ltb_ℤ, ℤ, pos, ℕ, zero, suc, ◌-◌, Bool, true, false, not, ◌&&◌,
  Option, none, some, List, [], ◌∷◌, ◌++◌,
}
use chrono_flow.Effect.{◌>>=◌, ◌>>◌, pure, try, message, Result, ok, err}
use chrono_flow.Model.Timer.{Time, TimerDefinition, MisfirePolicy, skip, fire_once, catch_up, empty}
use chrono_flow.Database.{Sql}
use chrono_flow.Repository.Schedule.{
  DueTimerResolver, nothing_scheduled, schedule_due_batch, ScheduleBatchResult, Json,
}
use chrono_flow.Service.Cron.{CronLibrary, and_then, next_trigger_time}
use chrono_flow.Config.{seconds, SchedulerConfig}

-- The loop of CATCH_UP: at most `rounds` more occurrences, none later than `now`.
unfoldable pub catch_up_loop :
    (Time → Result Time) → Time → ℕ → List Time → Time → Result (List Time × Time)
catch_up_loop next_after now zero occurrences cursor = ok (occurrences, cursor)
catch_up_loop next_after now (suc rounds) occurrences cursor = elim (ltb now cursor) [
  | true ↦ ok (occurrences, cursor)
  | false ↦
      and_then (next_after cursor)
        (λ next. catch_up_loop next_after now rounds (occurrences ++ cursor ∷ []) next)
]

abbrev pub with_default : MisfirePolicy → MisfirePolicy
with_default empty = fire_once
with_default policy = policy

abbrev pub is_catch_up : MisfirePolicy → Bool
is_catch_up catch_up = true
is_catch_up _ = false

-- `if limit < 1 { limit = DefaultMaxCatchUp }`; the loop makes no round for a limit of 0. For a
-- negative one `make` panics in the source, and the loop makes no round here: the limit of the
-- settings is at least 1 after their normalisation.
abbrev pub catch_up_limit : ℤ → ℤ → ℕ
catch_up_limit max_catch_up default =
    pos_part (if ltb_ℤ max_catch_up (pos 1) then default else max_catch_up)

module _ (library : CronLibrary) (cfg : SchedulerConfig) where
  -- The `switch policy`.
  unfoldable pub resolve_misfire :
      MisfirePolicy → TimerDefinition → Time → Time → Result (List Time × Option Time)
  resolve_misfire skip definition current now =
      and_then (next_trigger_time library definition.cron_expr now) (λ next. ok ([], some next))
  resolve_misfire fire_once definition current now =
      and_then (next_trigger_time library definition.cron_expr now)
        (λ next. ok (current ∷ [], some next))
  resolve_misfire catch_up definition current now =
      and_then
        (catch_up_loop (next_trigger_time library definition.cron_expr) now
          (catch_up_limit definition.max_catch_up cfg.default_max_catch_up) [] current)
        (λ r. ok (r.0, some r.1))
  resolve_misfire policy definition current now = err (message "unknown misfire policy")

  unfoldable pub resolve_at : TimerDefinition → Time → Time → Result (List Time × Option Time)
  unfolding resolve_misfire
  resolve_at definition current now =
      let overdue = ltb (seconds cfg.misfire_grace_seconds) (now - current) in
      let policy = with_default definition.misfire_policy in
      if not overdue && not (is_catch_up policy)
      then and_then (next_trigger_time library definition.cron_expr current)
          (λ next. ok (current ∷ [], some next))
      else resolve_misfire policy definition current now

  unfoldable pub resolve_timer : DueTimerResolver
  unfolding resolve_at
  resolve_timer definition now = elim definition.next_fire_at [
    | none ↦ err (message "ACTIVE timer has an empty next_fire_at")
    | some current ↦ resolve_at definition current now
  ]

  -- What one round reports: the counts and whether the batch was committed.
  abbrev pub SchedulerReport : Type 0
  SchedulerReport = ScheduleBatchResult × Bool

  abbrev pub reported : Result ScheduleBatchResult → SchedulerReport
  reported (ok result) = (result, true)
  reported (err e) = (nothing_scheduled, false)

  unfoldable pub schedule : Json → (ℕ → Bool) → Time → Sql SchedulerReport
  schedule json unlocked now = do
    outcome ← try (schedule_due_batch json unlocked now cfg.batch_size resolve_timer)
    pure (reported outcome)
