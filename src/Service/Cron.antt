-- ===== src/Service/Cron.antt =====
-- internal/pkg/cron/parser.go over robfig/cron, whose parser is a parameter: a schedule answers the
-- next time after a given one, or none for Go's zero time.
use chrono_flow.Common.{Option-cases, ◌<◌, String, ◌≡◌, refl, inl, inr, Option, none, some, arith}
use chrono_flow.Effect.{message, Result, ok, err}
use chrono_flow.Model.Timer.{Time}

abbrev pub CronLibrary : Type 0
CronLibrary = String → Option (Time → Option Time)

abbrev pub and_then : {A B : Type 0} → Result A → (A → Result B) → Result B
and_then (ok a) f = f a
and_then (err e) f = err e

pub and_then-ok :
    {A B : Type 0} (m : Result A) (f : A → Result B) {b : B}
    → and_then m f ≡ ok b
    → (a : A) × (m ≡ ok a) × (f a ≡ ok b)
and_then-ok (ok a) f h = (a, refl, h)
and_then-ok (err e) f h = cc

module _ (library : CronLibrary) where
  unfoldable pub parse : String → Result (Time → Option Time)
  parse expr = elim (library expr) [
    | none ↦ err (message "parse cron expression")
    | some schedule ↦ ok schedule
  ]

  abbrev pub nonzero : Option Time → Result Time
  nonzero none = err (message "cron expression has no next trigger time within the supported range")
  nonzero (some next) = ok next

  unfoldable pub next_trigger_time : String → Time → Result Time
  unfolding parse
  next_trigger_time expr from = and_then (parse expr) (λ schedule. nonzero (schedule from))

  unfoldable pub validate_cron_expr : String → Result (Unit {0})
  unfolding parse
  validate_cron_expr expr = and_then (parse expr) (λ schedule. ok tt)

-- The documented behaviour of a schedule: the next time is later than the given one.
abbrev pub Advances : CronLibrary → Type 0
Advances library =
    (expr : String) (schedule : Time → Option Time) (from next : Time)
    → library expr ≡ some schedule
    → schedule from ≡ some next
    → from < next

pub next_trigger_time_later :
    (library : CronLibrary)
    → Advances library
    → (expr : String) (from next : Time) → next_trigger_time library expr from ≡ ok next
    → from < next
unfolding next_trigger_time
next_trigger_time_later library advances expr from next h = elim (Option-cases (library expr)) [
  | inl e ↦ ground arith
  | inr (schedule, e) ↦ elim (Option-cases (schedule from)) [
    | inl z ↦ ground arith
    | inr (t, z) ↦ ground (arith, advances expr schedule from t)
  ]
]
