-- ===== src/Model/StateMachine.antt =====
-- internal/model/state_machine.go
use chrono_flow.Common.{any, ◌≡◌, refl, ◌↔◌, Bool, true, List, [], ◌∷◌, arith}
use chrono_flow.Model.Timer.{status_eq, TimerStatus, active, inactive, deleted}

-- The map `timerTransitions`.
timer_transitions : TimerStatus → List TimerStatus
timer_transitions active = inactive ∷ deleted ∷ []
timer_transitions inactive = active ∷ deleted ∷ []
timer_transitions deleted = []

-- `true` is a nil error.
unfoldable pub validate_timer_transition : TimerStatus → TimerStatus → Bool
unfolding timer_transitions
validate_timer_transition from to = any (λ target. status_eq target to) (timer_transitions from)

-- The diagram that the comment above the map draws.
pub data Transition : TimerStatus → TimerStatus → Type 0 where
  pause : Transition active inactive
  resume : Transition inactive active
  drop_active : Transition active deleted
  drop_inactive : Transition inactive deleted

sound : (s t : TimerStatus) → validate_timer_transition s t ≡ true → Transition s t
unfolding validate_timer_transition
sound active inactive h = pause
sound active deleted h = drop_active
sound inactive active h = resume
sound inactive deleted h = drop_inactive
sound _ _ h = ground arith

complete : {s t : TimerStatus} → Transition s t → validate_timer_transition s t ≡ true
unfolding validate_timer_transition
complete pause = refl
complete resume = refl
complete drop_active = refl
complete drop_inactive = refl

-- The validation accepts exactly the edges of the diagram.
validate_timer_transition_iff :
    (from to : TimerStatus) → (validate_timer_transition from to ≡ true) ↔ Transition from to
validate_timer_transition_iff from to = (sound from to, complete)
