-- ===== src/Repository/Recovery/Rows.antt =====
-- What one round of RecoverBatch (internal/repository/recovery_repo.go) does to a row.
use chrono_flow.Common.{
  ◌==◌, if◌then◌else◌, Bool-cases, any, ◌≤◌, ◌≡◌, refl, ◌∙◌, ◌⊎◌, inl, inr, Bool, true, false, not,
  ◌&&◌, ◌||◌, List, ◌∷◌, arith, str_eq,
}
use chrono_flow.Model.Timer.{Time}
use chrono_flow.Model.Execution.{is_running, TimerExecution}
use chrono_flow.Repository.Recovery.{
  is_stuck, is_expired_row, given_up, put_back, enqueued_at, has_id,
}

-- The row is the one that was selected, as far as the conditions of the loop go.
unfoldable pub is_same : TimerExecution → TimerExecution → Bool
is_same r x =
    r.id == x.id
    && (is_running x.status && is_running r.status
        || not (is_running x.status) && not (is_running r.status))
    && str_eq r.run_token x.run_token

module _ (now stale_before : Time) (recent : stale_before ≤ now) where
  -- A row that is stuck is still to come in the loop.
  abbrev pub ToCome : List TimerExecution → TimerExecution → Type 0
  ToCome rest r = is_stuck now stale_before r ≡ true → any (is_same r) rest ≡ true

  -- The same between the statements of a round: or it waits for the last of them.
  abbrev pub InRound : TimerExecution → List TimerExecution → TimerExecution → Type 0
  InRound e rest r =
      is_stuck now stale_before r ≡ true
      → (any (is_same r) rest ≡ true) ⊎ ((r.id == e.id) ≡ true) × (is_running r.status ≡ false)

  enqueued_stuck :
      (r : TimerExecution)
      → is_stuck now stale_before (enqueued_at now r) ≡ true
      → (is_running r.status ≡ true) × (is_stuck now stale_before r ≡ true)
  unfolding is_stuck enqueued_at
  enqueued_stuck r h = ground arith

  any_same :
      (r f : TimerExecution) (rest : List TimerExecution)
      → f.id ≡ r.id
      → f.status ≡ r.status
      → f.run_token ≡ r.run_token
      → any (is_same f) rest ≡ any (is_same r) rest
  unfolding is_same
  any_same r f rest a b c = rw (a, b, c) refl

  same_enqueued :
      (r : TimerExecution) (rest : List TimerExecution)
      → any (is_same (enqueued_at now r)) rest ≡ any (is_same r) rest
  unfolding enqueued_at
  same_enqueued r rest = any_same r _ rest refl refl refl

  -- The last statement of a round.
  pub enqueue-ToCome :
      (e : TimerExecution) (rest : List TimerExecution) (r : TimerExecution)
      → InRound e rest r
      → ToCome rest (if has_id e.id r then enqueued_at now r else r)
  unfolding has_id
  enqueue-ToCome e rest r h = elim (Bool-cases (r.id == e.id)) [
    | inl t ↦ rw t λ k. waited (h (enqueued_stuck r k).1) (enqueued_stuck r k).0
    | inr t ↦ rw t λ k. missed t (h k)
  ]
    where
      waited :
          (any (is_same r) rest ≡ true) ⊎ ((r.id == e.id) ≡ true) × (is_running r.status ≡ false)
          → is_running r.status ≡ true
          → any (is_same (enqueued_at now r)) rest ≡ true
      waited (inl a) u = same_enqueued r rest ∙ a
      waited (inr (a, b)) u = cc

      missed :
          (r.id == e.id) ≡ false
          → (any (is_same r) rest ≡ true) ⊎ ((r.id == e.id) ≡ true) × (is_running r.status ≡ false)
          → any (is_same r) rest ≡ true
      missed t (inl a) = a
      missed t (inr (a, b)) = cc

  -- An execution that is not running goes straight to the last statement.
  pub wait-InRound :
      (e : TimerExecution) (rest : List TimerExecution) (r : TimerExecution)
      → is_running e.status ≡ false
      → ToCome (e ∷ rest) r
      → InRound e rest r
  unfolding is_same
  wait-InRound e rest r idle h k = go (is_same r e) (any (is_same r) rest) (h k) (λ t. split t)
    where
      split : is_same r e ≡ true → ((r.id == e.id) ≡ true) × (is_running r.status ≡ false)
      split t = ground arith

      go :
          (a b : Bool)
          → (a || b) ≡ true
          → (a ≡ true → ((r.id == e.id) ≡ true) × (is_running r.status ≡ false))
          → (b ≡ true) ⊎ ((r.id == e.id) ≡ true) × (is_running r.status ≡ false)
      go true b u f = inr (f refl)
      go false b u f = inl u

  -- Two tests of one row that exclude each other.
  still-ToCome :
      (e : TimerExecution) (rest : List TimerExecution) (r : TimerExecution)
      → is_running e.status ≡ true
      → is_expired_row e r ≡ false
      → ToCome (e ∷ rest) r
      → ToCome rest r
  unfolding is_same is_expired_row
  still-ToCome e rest r live spared h k =
      go (is_same r e) (any (is_same r) rest) (h k) (λ t. split t)
    where
      split : is_same r e ≡ true → ⊥
      split t = ground arith

      go : (a b : Bool) → (a || b) ≡ true → (a ≡ true → ⊥) → b ≡ true
      go true b u f = absurd (f refl)
      go false b u f = u

  given_up_settled : (r : TimerExecution) → is_stuck now stale_before (given_up now r) ≡ false
  unfolding is_stuck given_up
  given_up_settled r = refl

  pub give_up-ToCome :
      (e : TimerExecution) (rest : List TimerExecution) (r : TimerExecution)
      → is_running e.status ≡ true
      → ToCome (e ∷ rest) r
      → ToCome rest (if is_expired_row e r then given_up now r else r)
  give_up-ToCome e rest r live h = elim (Bool-cases (is_expired_row e r)) [
    | inl t ↦ rw t λ k. absurd (clash (given_up_settled r) k)
    | inr t ↦ rw t (still-ToCome e rest r live t h)
  ]
    where
      clash : {b : Bool} → b ≡ false → b ≡ true → ⊥
      clash u v = cc

  expired_id : (e r : TimerExecution) → is_expired_row e r ≡ true → (r.id == e.id) ≡ true
  unfolding is_expired_row
  expired_id e r h = ground arith

  put_back_idle :
      (e r : TimerExecution)
      → (r.id == e.id) ≡ true
      → (((put_back now r).id == e.id) ≡ true) × (is_running (put_back now r).status ≡ false)
  unfolding put_back
  put_back_idle e r h = (h, refl)

  pub put_back-InRound :
      (e : TimerExecution) (rest : List TimerExecution) (r : TimerExecution)
      → is_running e.status ≡ true
      → ToCome (e ∷ rest) r
      → InRound e rest (if is_expired_row e r then put_back now r else r)
  put_back-InRound e rest r live h = elim (Bool-cases (is_expired_row e r)) [
    | inl t ↦ rw t λ k. inr (put_back_idle e r (expired_id e r t))
    | inr t ↦ rw t λ k. inl (still-ToCome e rest r live t h k)
  ]
