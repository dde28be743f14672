-- ===== src/Repository/Executions/Wins.antt =====
-- Calls of internal/repository/timer_execution_repo.go that nothing stands against.
use chrono_flow.Common.{
  ◌==◌, ℕ, ◌+◌, ltb, ◌&&◌, any, Bool, Bool-cases, inl, inr, Option, none, List, ◌∷◌, String, ◌≡◌,
  refl, true, false, some,
}
use chrono_flow.Model.Outbox.{event_id_eq, retry_id, execution_retry, OutboxEvent}
use chrono_flow.Repository.Events.{new_execution_outbox_event, insert_event, create_event}
use chrono_flow.Effect.{run, ok}
use chrono_flow.Model.Timer.{Time}
use chrono_flow.Model.Execution.{TimerExecution}
use chrono_flow.Database.{run_sql, Database}
use chrono_flow.Repository.Executions.{
  update_executions, is_claimable, can_claim, claimed, claim, is_held, renewed, heartbeat,
  succeeded, complete_success, failed_attempt, retry_time, complete_failure,
}
use chrono_flow.Repository.Executions.OneRow.{quiet, row_id, update-Row, Row}

abbrev pub IsSilent : (Database → Database) → Type 0
IsSilent others = (db : Database) → others db ≡ db

claimed_id :
    (owner run_token : String) (now until : Time) (r : TimerExecution)
    → (claimed owner run_token now until r).id ≡ r.id
unfolding claimed
claimed_id owner run_token now until r = refl

renewed_id : (until : Time) (r : TimerExecution) → (renewed until r).id ≡ r.id
unfolding renewed
renewed_id until r = refl

succeeded_id :
    (at : Time) (code : ℕ) (body : String) (duration : ℕ) (r : TimerExecution)
    → (succeeded at code body duration r).id ≡ r.id
unfolding succeeded
succeeded_id at code body duration r = refl

failed_attempt_id :
    (at : Time) (code : ℕ) (body error : String) (duration : ℕ) (retry : Option Time)
    (r : TimerExecution)
    → (failed_attempt at code body error duration retry r).id ≡ r.id
unfolding failed_attempt
failed_attempt_id at code body error duration none r = refl
failed_attempt_id at code body error duration (some t) r = refl

module _ (id : ℕ) (owner run_token : String) where
  other_claim :
      (now : Time) (r : TimerExecution) → (r.id == id) ≡ false → can_claim id now r ≡ false
  unfolding can_claim
  other_claim now r t = rw t refl

  other_held : (r : TimerExecution) → (r.id == id) ≡ false → is_held id owner run_token r ≡ false
  unfolding is_held
  other_held r t = rw t refl

  claim-Row :
      (now until : Time) {e : TimerExecution} {db : Database}
      → Row id e db
      → is_claimable now e ≡ true
      → ((update_executions (can_claim id now) (claimed owner run_token now until) db).0 ≡ 1)
        × Row id
            (claimed owner run_token now until e)
            (update_executions (can_claim id now) (claimed owner run_token now until) db).1
  unfolding can_claim
  claim-Row now until {e} row c =
      update-Row id (can_claim id now) (claimed owner run_token now until) (other_claim now)
        (λ r. claimed_id owner run_token now until r) row
        (rw (row_id id _ {e = e} row.here, c, can_claim) refl)

  pub claim_wins :
      (others : Database → Database) (now : Time) (ttl : ℕ) {e : TimerExecution} {db : Database}
      → IsSilent others
      → Row id e db
      → is_claimable now e ≡ true
      → (after : Database) × (claim others id owner run_token now ttl (quiet db)
          ≡ (ok (some (claimed owner run_token now (now + ttl) e), true), quiet after))
        × Row id (claimed owner run_token now (now + ttl) e) after
        × (after.outbox ≡ db.outbox)
  unfolding claim update_executions run_sql
  claim_wins others now ttl {e} {db} silent row c =
      let it = claim-Row now (now + ttl) row c in
      let after =
        (update_executions (can_claim id now) (claimed owner run_token now (now + ttl)) db).1 in
      (after, rw (silent after, it.0, it.1.here) refl, it.1, refl)

  pub renews :
      (until : Time) {e : TimerExecution} {db : Database}
      → Row id e db
      → is_held id owner run_token e ≡ true
      → (after : Database) × (heartbeat id owner run_token until (quiet db)
          ≡ (ok true, quiet after))
        × Row id (renewed until e) after
        × (after.outbox ≡ db.outbox)
  unfolding heartbeat update_executions run_sql
  renews until {e} {db} row held =
      let it =
        update-Row id (is_held id owner run_token) (renewed until) other_held
          (λ r. renewed_id until r) row held in
      (
        (update_executions (is_held id owner run_token) (renewed until) db).1,
        rw it.0 refl,
        it.1,
        refl,
      )

  pub completes :
      (at : Time) (code : ℕ) (body : String) (duration : ℕ) {e : TimerExecution} {db : Database}
      → Row id e db
      → is_held id owner run_token e ≡ true
      → (after : Database) × (complete_success id owner run_token at code body duration (quiet db)
          ≡ (ok true, quiet after))
        × Row id (succeeded at code body duration e) after
  unfolding complete_success run_sql
  completes at code body duration {e} {db} row held =
      let it =
        update-Row id (is_held id owner run_token) (succeeded at code body duration) other_held
          (λ r. succeeded_id at code body duration r) row held in
      (
        (update_executions (is_held id owner run_token) (succeeded at code body duration) db).1,
        rw it.0 refl,
        it.1,
      )

-- No event of the outbox has the id of a retry after this attempt.
abbrev pub IsUnannounced : ℕ → ℕ → List OutboxEvent → Type 0
IsUnannounced id attempt outbox =
    any (λ o. event_id_eq o.event_id (retry_id id attempt)) outbox ≡ false

-- The outbox after a failed attempt: with a retry, the event comes first.
abbrev pub outbox_after : TimerExecution → Option Time → Time → Database → List OutboxEvent
outbox_after e none at db = db.outbox
outbox_after e (some retry_at) at db =
    record (new_execution_outbox_event e.id (retry_id e.id e.attempt) execution_retry retry_at at) {
      id = db.next_event_id;
    }
    ∷ db.outbox

module _ (owner run_token : String) (at : Time) (code : ℕ) (body error : String) (duration : ℕ)
    (retry_at : Time) (retryable : Bool) where
  abbrev pub retry_of : TimerExecution → Option Time
  retry_of e = retry_time (retryable && ltb e.attempt e.max_attempts) retry_at

  updates :
      (retry : Option Time) (c : TimerExecution) {e : TimerExecution} {db : Database}
      → Row c.id e db
      → is_held c.id owner run_token e ≡ true
      → let f = failed_attempt at code body error duration retry in
        ((update_executions (is_held c.id owner run_token) f db).0 ≡ 1)
        × Row c.id (f e) (update_executions (is_held c.id owner run_token) f db).1
  updates retry c row held =
      update-Row c.id (is_held c.id owner run_token)
        (failed_attempt at code body error duration retry) (other_held c.id owner run_token)
        (failed_attempt_id at code body error duration retry) row held

  pub fails :
      (c : TimerExecution) {e : TimerExecution} {db : Database}
      → Row c.id e db
      → is_held c.id owner run_token e ≡ true
      → ((retryable && ltb c.attempt c.max_attempts) ≡ true
          → IsUnannounced c.id c.attempt db.outbox)
      → (after : Database) × (complete_failure c owner run_token at code body error duration
            retry_at retryable
            (quiet db)
          ≡ (ok (true, retryable && ltb c.attempt c.max_attempts), quiet after))
        × Row c.id (failed_attempt at code body error duration (retry_of c) e) after
        × (after.outbox ≡ outbox_after c (retry_of c) at db)
  unfolding complete_failure update_executions create_event insert_event new_execution_outbox_event
      run_sql run
  fails c {e} {db} row held new = elim (Bool-cases (retryable && ltb c.attempt c.max_attempts)) [
    | inl t ↦
        let it = updates (some retry_at) c row held in
        let there = it.1 in
        let after = record db {
          executions =
              (update_executions (is_held c.id owner run_token)
                (failed_attempt at code body error duration (some retry_at)) db).1.executions;
          outbox = outbox_after c (some retry_at) at db;
          next_event_id = db.next_event_id + 1;
        } in
        rw t (after, rw (it.0, new t) refl, record { below = there.below; here = there.here }, refl)
    | inr t ↦
        let it = updates none c row held in
        rw t (
          (update_executions (is_held c.id owner run_token)
              (failed_attempt at code body error duration none) db).1,
          rw it.0 refl,
          it.1,
          refl,
        )
  ]
