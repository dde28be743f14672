-- ===== src/Repository/Lifecycle/Rules.antt =====
-- The life of an execution and the statements that move one.
use chrono_flow.Common.{
  leb, is_before, is_due, ℤ, ℕ, ◌+◌, ◌≤◌, String, ◌≡◌, refl, sym, inl, inr, Bool, true, ◌&&◌, ◌||◌,
  Option, none, some, List, arith,
}
use chrono_flow.Effect.Keeps.{Keeps-bind, Keeps-wrap_error, Keeps}
use chrono_flow.Database.SessionLaws.{Keeps-meanwhile, On, sql_rules}
use chrono_flow.Model.Timer.{Time}
use chrono_flow.Model.Execution.{
  is_pending, is_running, is_retry_wait, TimerExecution, ExecutionStatus, pending, running,
  retry_wait, success, failed, cancelled,
}
use chrono_flow.Repository.Executions.{
  is_claimable, can_claim, claimed, claim, is_held, renewed, heartbeat, succeeded, complete_success,
  failed_attempt, complete_failure,
}
use chrono_flow.Repository.Recovery.{
  is_expired_row, given_up, put_back, enqueued_at, reenqueue, recover_one, recover_batch,
  RecoveryResult,
}
use chrono_flow.Repository.Invariant.{SameExecution}
use chrono_flow.Repository.Lifecycle.{
  From, update_executions-From, create_event-From, IsAdvance, Edge, start, start_again, take_over,
  succeed, fail, wait,
}
use mathlib.Core.Path.{subst}

is_running→≡ : (s : ExecutionStatus) → is_running s ≡ true → s ≡ running
is_running→≡ running h = refl
is_running→≡ _ h = ground arith

-- A claimable row is in a status from which running is reached.
claimable-Edge :
    (now : Time) (e : TimerExecution) → is_claimable now e ≡ true → Edge e.status running 1
unfolding is_claimable
claimable-Edge now e h = go e.status h
  where
    go :
        (s : ExecutionStatus)
        → (is_pending s && leb e.scheduled_at now)
            || (is_retry_wait s && is_due e.next_attempt_at now)
            || (is_running s && is_before e.lease_until now)
          ≡ true
        → Edge s running 1
    go pending h = start
    go running h = take_over
    go retry_wait h = start_again
    go success h = ground arith
    go failed h = ground arith
    go cancelled h = ground arith

same_row :
    (e f : TimerExecution)
    → f.id ≡ e.id
    → f.timer_id ≡ e.timer_id
    → f.scheduled_at ≡ e.scheduled_at
    → f.max_attempts ≡ e.max_attempts
    → f.request_snapshot ≡ e.request_snapshot
    → e.attempt ≤ f.attempt
    → SameExecution e f
same_row e f a b c d r n = record {
  same_id = a;
  same_timer = b;
  same_time = c;
  same_limit = d;
  same_request = r;
  counted = n;
}

claimed-IsAdvance :
    (id : ℕ) (owner run_token : String) (now until : Time) (e : TimerExecution)
    → can_claim id now e ≡ true
    → IsAdvance e (claimed owner run_token now until e)
unfolding claimed can_claim
claimed-IsAdvance id owner run_token now until e h = record {
  same = same_row e _ refl refl refl refl refl (omega arith);
  moved = inr (1, claimable-Edge now e (ground arith), refl);
}

-- What a row that is running, and is not claimed, becomes.
leave :
    (e f : TimerExecution)
    → is_running e.status ≡ true
    → SameExecution e f
    → f.attempt ≡ e.attempt
    → Edge running f.status 0
    → IsAdvance e f
leave e f r same n edge = record {
  same = same;
  moved = inr (0, subst (λ s. Edge s f.status 0) (sym (is_running→≡ e.status r)) edge, omega arith);
}

renewed-IsAdvance : (t : Time) (e : TimerExecution) → IsAdvance e (renewed t e)
unfolding renewed
renewed-IsAdvance t e = record {
  same = same_row e _ refl refl refl refl refl (omega arith);
  moved = inl (refl, refl);
}

held_running :
    (id : ℕ) (owner run_token : String) (e : TimerExecution)
    → is_held id owner run_token e ≡ true
    → is_running e.status ≡ true
unfolding is_held
held_running id owner run_token e h = ground arith

succeeded-IsAdvance :
    (id : ℕ) (owner run_token : String) (at code : ℕ) (body : String) (duration : ℕ)
    (e : TimerExecution)
    → is_held id owner run_token e ≡ true
    → IsAdvance e (succeeded at code body duration e)
unfolding succeeded
succeeded-IsAdvance id owner run_token at code body duration e h =
    leave e _ (held_running id owner run_token e h)
      (same_row e _ refl refl refl refl refl (omega arith)) refl succeed

failed_attempt-IsAdvance :
    (id : ℕ) (owner run_token : String) (at code : ℕ) (body error : String) (duration : ℕ)
    (r : Option Time) (e : TimerExecution)
    → is_held id owner run_token e ≡ true
    → IsAdvance e (failed_attempt at code body error duration r e)
unfolding failed_attempt
failed_attempt-IsAdvance id owner run_token at code body error duration none e h =
    leave e _ (held_running id owner run_token e h)
      (same_row e _ refl refl refl refl refl (omega arith)) refl fail
failed_attempt-IsAdvance id owner run_token at code body error duration (some t) e h =
    leave e _ (held_running id owner run_token e h)
      (same_row e _ refl refl refl refl refl (omega arith)) refl wait

expired_running : (x e : TimerExecution) → is_expired_row x e ≡ true → is_running e.status ≡ true
unfolding is_expired_row
expired_running x e h = ground arith

given_up-IsAdvance :
    (x : TimerExecution) (now : Time) (e : TimerExecution)
    → is_expired_row x e ≡ true
    → IsAdvance e (given_up now e)
unfolding given_up
given_up-IsAdvance x now e h =
    leave e _ (expired_running x e h) (same_row e _ refl refl refl refl refl (omega arith)) refl
      fail

put_back-IsAdvance :
    (x : TimerExecution) (now : Time) (e : TimerExecution)
    → is_expired_row x e ≡ true
    → IsAdvance e (put_back now e)
unfolding put_back
put_back-IsAdvance x now e h =
    leave e _ (expired_running x e h) (same_row e _ refl refl refl refl refl (omega arith)) refl
      wait

enqueued_at-IsAdvance : (now : Time) (e : TimerExecution) → IsAdvance e (enqueued_at now e)
unfolding enqueued_at
enqueued_at-IsAdvance now e = record {
  same = same_row e _ refl refl refl refl refl (omega arith);
  moved = inl (refl, refl);
}

module _ (es : List TimerExecution) where
  pub claim-From :
      (id : ℕ) (owner run_token : String) (now : Time) (ttl : ℕ)
      → Keeps (On (From es)) (claim (λ db. db) id owner run_token now ttl)
  unfolding claim
  claim-From id owner run_token now ttl =
      Keeps-bind
        (Keeps-wrap_error _
          (update_executions-From es _ _ (claimed-IsAdvance id owner run_token now (now + ttl))))
        λ affected. Keeps-bind (Keeps-meanwhile (λ db. db) (λ db h. h)) (λ _. search sql_rules)

  pub heartbeat-From :
      (id : ℕ) (owner run_token : String) (t : Time)
      → Keeps (On (From es)) (heartbeat id owner run_token t)
  unfolding heartbeat
  heartbeat-From id owner run_token t =
      search (sql_rules, update_executions-From, renewed-IsAdvance) depth 12

  pub complete_success-From :
      (id : ℕ) (owner run_token : String) (at code : ℕ) (body : String) (duration : ℕ)
      → Keeps (On (From es)) (complete_success id owner run_token at code body duration)
  unfolding complete_success
  complete_success-From id owner run_token at code body duration =
      search (sql_rules, update_executions-From, succeeded-IsAdvance) depth 12

  pub complete_failure-From :
      (execution : TimerExecution) (owner run_token : String) (at code : ℕ) (body error : String)
      (duration retry_at : ℕ) (retryable : Bool)
      → Keeps (On (From es)) (
          complete_failure execution owner run_token at code body error duration retry_at retryable)
  unfolding complete_failure
  complete_failure-From execution owner run_token at code body error duration retry_at retryable =
      search (sql_rules, update_executions-From, failed_attempt-IsAdvance, create_event-From) depth
        12

  reenqueue-From :
      (now : Time) (result : RecoveryResult) (execution : TimerExecution)
      → Keeps (On (From es)) (reenqueue now result execution)
  unfolding reenqueue
  reenqueue-From now result execution =
      search (sql_rules, create_event-From, update_executions-From, enqueued_at-IsAdvance) depth 12

  recover_one-From :
      (now : Time) (result : RecoveryResult) (execution : TimerExecution)
      → Keeps (On (From es)) (recover_one now result execution)
  unfolding recover_one
  recover_one-From now result execution =
      search
        (sql_rules, reenqueue-From, update_executions-From, given_up-IsAdvance, put_back-IsAdvance)
        depth 16

  pub recover_batch-From :
      (unlocked : ℕ → Bool) (now stale_before : Time) (batch : ℤ)
      → Keeps (On (From es)) (recover_batch unlocked now stale_before batch)
  unfolding recover_batch
  recover_batch-From unlocked now stale_before batch = search (sql_rules, recover_one-From) depth 12
