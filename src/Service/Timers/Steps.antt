-- ===== src/Service/Timers/Steps.antt =====
-- The status of a timer and its state machine: the WHERE clauses of
-- internal/repository/timer_definition_repo.go under internal/service/timer_service.go.
use chrono_flow.Repository.Invariant.{from_result-Keeps}
use chrono_flow.Common.{
  is_null, Bool-cases, ℕ, ◌+◌, ◌≡◌, refl, sym, ◌⊎◌, inl, inr, Bool, true, not, Option, none, some,
  List, [], ◌∷◌, arith,
}
use chrono_flow.Database.{update_where, statement, Database, Session}
use chrono_flow.Database.Changes.{
  Reads, Changes-after, Changes-before, Changes-wrap_error, Changes-statement, Changes-meanwhile,
  Changes,
}
use chrono_flow.Model.Timer.{
  Time, status_eq, TimerDefinition, TimerStatus, active, inactive, deleted,
}
use chrono_flow.Model.StateMachine.{Transition, pause, resume, drop_active, drop_inactive}
use chrono_flow.Repository.Schedule.{update_timers}
use chrono_flow.Repository.Timers.{
  is_visible, get_definition, rescheduled, delete_definition, has_status, update_schedule_state,
}
use mathlib.Core.Path.{subst}
use chrono_flow.Effect.Keeps.{Keeps-wrap_error}
use chrono_flow.Database.SessionLaws.{sql_rules}
use chrono_flow.Service.Cron.{CronLibrary, next_trigger_time}
use chrono_flow.Service.Timers.{get_timer, delete_timer, activate, deactivate}

-- A move of the state machine: the next version of the row, which differs in its status and in its
-- time only, and has a time exactly if it is now active.
pub record IsMove (t u : TimerDefinition) : Type 0 where
  pub transition : Transition t.status u.status
  pub row :
      u ≡ record t { status = u.status; next_fire_at = u.next_fire_at; version = t.version + 1 }
  pub scheduled : is_null u.next_fire_at ≡ not (status_eq u.status active)

-- Each row stays or moves.
abbrev pub Moved : List TimerDefinition → List TimerDefinition → Type 0
Moved [] [] = Unit {0}
Moved (t ∷ ts) (u ∷ us) = ((u ≡ t) ⊎ IsMove t u) × Moved ts us
Moved _ _ = ⊥

abbrev pub TimersMoved : Database → Database → Type 0
TimersMoved d e = Moved d.timers e.timers

Moved-refl : (ts : List TimerDefinition) → Moved ts ts
Moved-refl [] = tt
Moved-refl (t ∷ ts) = (inl refl, Moved-refl ts)

Moved-update_where :
    (p : TimerDefinition → Bool) (f : TimerDefinition → TimerDefinition)
    → ((t : TimerDefinition) → p t ≡ true → IsMove t (f t))
    → (ts : List TimerDefinition) → Moved ts (update_where p f ts)
unfolding update_where
Moved-update_where p f k [] = tt
Moved-update_where p f k (t ∷ ts) = elim (Bool-cases (p t)) [
  | inl e ↦ rw e (inr (k t e), Moved-update_where p f k ts)
  | inr e ↦ rw e (inl refl, Moved-update_where p f k ts)
]

moved_same : (d : Database) → TimersMoved d d
moved_same d = Moved-refl d.timers

update_timers-Moved :
    (p : TimerDefinition → Bool) (f : TimerDefinition → TimerDefinition)
    → ((t : TimerDefinition) → p t ≡ true → IsMove t (f t))
    → Changes TimersMoved (statement (update_timers p f))
unfolding update_timers
update_timers-Moved p f k =
    Changes-statement TimersMoved moved_same (update_timers p f)
      λ d. Moved-update_where p f k d.timers

status_eq→≡ : (s t : TimerStatus) → status_eq s t ≡ true → s ≡ t
status_eq→≡ active active h = refl
status_eq→≡ inactive inactive h = refl
status_eq→≡ deleted deleted h = refl
status_eq→≡ _ _ h = ground arith

deletion : (s : TimerStatus) → not (status_eq s deleted) ≡ true → Transition s deleted
deletion active h = drop_active
deletion inactive h = drop_inactive
deletion deleted h = ground arith

rescheduled-IsMove :
    (to : TimerStatus) (next : Option Time) (t : TimerDefinition)
    → is_null next ≡ not (status_eq to active)
    → Transition t.status to
    → IsMove t (rescheduled to next t)
unfolding rescheduled
rescheduled-IsMove to next t h m = record { transition = m; row = refl; scheduled = h }

delete-IsMove :
    (id : ℕ) (t : TimerDefinition) → is_visible id t ≡ true → IsMove t (rescheduled deleted none t)
unfolding is_visible
delete-IsMove id t h = rescheduled-IsMove deleted none t refl (deletion t.status (ground arith))

update-IsMove :
    (id : ℕ) (from to : TimerStatus) (next : Option Time)
    → is_null next ≡ not (status_eq to active)
    → Transition from to
    → (t : TimerDefinition) → has_status id from t ≡ true
    → IsMove t (rescheduled to next t)
unfolding has_status
update-IsMove id from to next h m t e =
    rescheduled-IsMove to next t h
      (subst (λ s. Transition s to) (sym (status_eq→≡ t.status from (ground arith))) m)

get_timer-Reads : (id : ℕ) → Reads (get_timer id)
unfolding get_timer get_definition
get_timer-Reads id d = search sql_rules depth 8

delete_timer-Moved : (id : ℕ) → Changes TimersMoved (delete_timer id)
unfolding delete_timer delete_definition
delete_timer-Moved id = Changes-wrap_error TimersMoved moved_same _ (
    Changes-before TimersMoved moved_same
      (Changes-wrap_error TimersMoved moved_same _
        (update_timers-Moved (is_visible id) (rescheduled deleted none) (delete-IsMove id)))
      (λ n d. search sql_rules))

update_schedule_state-Moved :
    (id : ℕ) (from to : TimerStatus) (next : Option Time)
    → is_null next ≡ not (status_eq to active)
    → Transition from to
    → Changes TimersMoved (update_schedule_state id from to next)
unfolding update_schedule_state
update_schedule_state-Moved id from to next h m =
    Changes-before TimersMoved moved_same
      (Changes-wrap_error TimersMoved moved_same _ (
        update_timers-Moved (has_status id from) (rescheduled to next)
          (update-IsMove id from to next h m)))
      (λ n d. search sql_rules)

-- What a call does when other sessions commit in the middle of it.
abbrev pub MovedAround : (Database → Database) → Database → Database → Type 0
MovedAround others d e = TimersMoved d e ⊎ TimersMoved (others d) e

around_same : (others : Database → Database) (d : Database) → MovedAround others d d
around_same others d = inl (moved_same d)

activate-Moved :
    (others : Database → Database) (library : CronLibrary) (now : Time) (id : ℕ)
    → Changes (MovedAround others) (activate others library now id)
unfolding activate
activate-Moved others library now id =
    Changes-after (MovedAround others) (around_same others) (get_timer-Reads id) λ def.
      Changes-meanwhile TimersMoved others λ _.
        Changes-after TimersMoved moved_same (λ d. search sql_rules)
          λ _.
            Changes-after TimersMoved moved_same
              (λ d.
                Keeps-wrap_error _
                  (from_result-Keeps (next_trigger_time library def.cron_expr now)))
              λ next.
                Changes-wrap_error TimersMoved moved_same _
                  (update_schedule_state-Moved def.id inactive active (some next) refl resume)

deactivate-Moved :
    (others : Database → Database) (id : ℕ) → Changes (MovedAround others) (deactivate others id)
unfolding deactivate
deactivate-Moved others id =
    Changes-after (MovedAround others) (around_same others) (get_timer-Reads id) λ def.
      Changes-meanwhile TimersMoved others λ _.
        Changes-after TimersMoved moved_same (λ d. search sql_rules)
          λ _. update_schedule_state-Moved id active inactive none refl pause

-- Whatever other sessions commit between its SELECT and its UPDATE, and whether it succeeds or not,
-- an activation, a deactivation or a deletion leaves each row of the timers as it is or moves it
-- along an edge of the state machine, with a new version, no other change of the row, and a
-- next_fire_at exactly if it is now active.
pub timers_move :
    (others : Database → Database) (library : CronLibrary) (now : Time) (id : ℕ) (s : Session)
    → MovedAround others s.db (activate others library now id s).1.db
      × MovedAround others s.db (deactivate others id s).1.db
      × TimersMoved s.db (delete_timer id s).1.db
timers_move others library now id s = (
  (activate-Moved others library now id).at s,
  (deactivate-Moved others id).at s,
  (delete_timer-Moved id).at s,
)
