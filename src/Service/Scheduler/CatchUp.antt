-- ===== src/Service/Scheduler/CatchUp.antt =====
-- The catch-up loop of resolveTimer (internal/service/scheduler.go) against the sequence of trigger
-- times that the cron expression gives.
use mathlib.Core.List.{append-nil, append_assoc}
use chrono_flow.Common.{
  ltb, ltb→lt, Bool-cases, length, ℕ, zero, suc, ◌≤◌, ◌<◌, ◌≡◌, refl, sym, ◌∙◌, ◌⊎◌, inl, inr, List,
  [], ◌∷◌, ◌++◌, arith,
}
use chrono_flow.Effect.{Result-cases, Result, ok}
use chrono_flow.Model.Timer.{Time}
use chrono_flow.Service.Scheduler.{catch_up_loop}

-- From `first` on, each time of the list has been reached by `now`, the next one follows it by the
-- cron expression, and `rest` follows the last.
pub data Triggers (next_after : Time → Result Time) (now : Time)
    : Time → List Time → Time → Type 0 where
  stop : {t : Time} → Triggers next_after now t [] t
  fire :
      {t u rest : Time} {ts : List Time}
      → t ≤ now
      → next_after t ≡ ok u
      → Triggers next_after now u ts rest
      → Triggers next_after now t (t ∷ ts) rest

module _ (next_after : Time → Result Time) (now : Time) where
  -- What the loop adds to its list.
  pub record CaughtUp (rounds : ℕ) (cursor : Time) (occurrences result : List Time) (rest : Time)
      : Type 0 where
    pub added : List Time
    pub appended : result ≡ occurrences ++ added
    pub triggers : Triggers next_after now cursor added rest
    pub bounded : length added ≤ rounds
    pub exhausted : (now < rest) ⊎ (length added ≡ rounds)

  stopped :
      (n : ℕ) (cursor : Time) (occurrences result : List Time) (rest : Time)
      → (now < cursor) ⊎ (0 ≡ n)
      → Path (Result (List Time × Time)) (ok (occurrences, cursor)) (ok (result, rest))
      → CaughtUp n cursor occurrences result rest
  stopped n cursor occurrences result rest over h =
      let same : occurrences ≡ result = ground arith in
      let last : cursor ≡ rest = ground arith in
      rw (← same, ← last)
        (record {
          added = [];
          appended = sym (append-nil occurrences);
          triggers = stop;
          bounded = omega arith;
          exhausted = over;
        })

  fired :
      (n : ℕ) (cursor next : Time) (occurrences result : List Time) (rest : Time)
      → cursor ≤ now
      → next_after cursor ≡ ok next
      → CaughtUp n next (occurrences ++ cursor ∷ []) result rest
      → CaughtUp (suc n) cursor occurrences result rest
  fired n cursor next occurrences result rest due e c = record {
    added = cursor ∷ c.added;
    appended = c.appended ∙ append_assoc occurrences (cursor ∷ []) c.added;
    triggers = fire due e c.triggers;
    bounded = omega (arith, c.bounded);
    exhausted = ground (arith, c.exhausted);
  }

  -- The loop adds consecutive trigger times that have been reached, at most as many as it has rounds,
  -- and stops before `rest`, which is in the future unless the rounds are used up.
  pub catch_up_loop_lem :
      (rounds : ℕ) (occurrences : List Time) (cursor : Time) {result : List Time} {rest : Time}
      → catch_up_loop next_after now rounds occurrences cursor ≡ ok (result, rest)
      → CaughtUp rounds cursor occurrences result rest
  unfolding catch_up_loop
  catch_up_loop_lem zero occurrences cursor {result} {rest} h =
      stopped 0 cursor occurrences result rest (inr refl) h
  catch_up_loop_lem (suc rounds) occurrences cursor {result} {rest} h =
      elim (Bool-cases (ltb now cursor)) [
        | inl e ↦
            stopped (suc rounds) cursor occurrences result rest (inl (ltb→lt now cursor e))
              (rw (e, catch_up_loop) at h)
        | inr e ↦ elim (Result-cases (next_after cursor)) [
          | inl (u, n) ↦ fired rounds cursor u occurrences result rest (ground arith) n (
              catch_up_loop_lem rounds (occurrences ++ cursor ∷ []) u
                (rw (e, n, catch_up_loop) at h))
          | inr (x, n) ↦ ground arith
        ]
      ]
