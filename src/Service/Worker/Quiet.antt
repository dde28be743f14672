-- ===== src/Service/Worker/Quiet.antt =====
-- A message that is worked on while nobody else writes, up to the result of the callback: process of
-- internal/service/stream_worker.go.
use text.Mathlib.TextPositions.{eq_refl}
use mathlib.Core.Path.{subst}
use chrono_flow.Common.{
  ◌==◌, ==→eq, All, pos_part, ℕ, ◌+◌, String, ◌≡◌, refl, sym, ◌∙◌, true, false, Option, some, List,
  [], ◌∷◌,
}
use chrono_flow.Effect.{run, Error, ok}
use chrono_flow.Model.Timer.{Time}
use chrono_flow.Model.Execution.{TimerExecution, CallbackSnapshot}
use chrono_flow.Database.{run_sql, Database}
use chrono_flow.Repository.Executions.{is_claimable, claimed, claim, is_held, renewed}
use chrono_flow.Repository.Executions.Wins.{IsSilent, claim_wins, renews}
use chrono_flow.Repository.Executions.OneRow.{quiet, row_id, Row}
use chrono_flow.Service.Worker.{
  is_malformed, heartbeat_loop, finish, run_claimed, after_claim, process_with, process, Tick,
  Surroundings,
}
use chrono_flow.Config.{seconds, WorkerConfig}
use chrono_flow.Repository.Schedule.{Json}
use chrono_flow.Service.Stream.Messages.{StreamMessage}

-- Nobody else writes while a message is worked on, and a run token is drawn.
pub record IsQuiet (world : Surroundings) (run_token : String) : Type 0 where
  pub token : world.run_token ≡ some run_token
  pub after_claim_silent : IsSilent world.after_claim
  pub ticks_silent : All (λ (t : Tick). IsSilent t.others) world.ticks
  pub result_silent : IsSilent world.before_result

module _ (json : Json) (cfg : WorkerConfig) (owner : String) (text_of : Error → String)
    (world : Surroundings) where
  -- The ticks only move the end of the lease.
  renewed_through :
      (id : ℕ) (run_token : String) (ticks : List Tick) {e : TimerExecution} {db : Database}
      → All (λ (t : Tick). IsSilent t.others) ticks
      → Row id e db
      → is_held id owner run_token e ≡ true
      → (after : Database) × (until : Option Time) × (heartbeat_loop json cfg owner text_of world id
            run_token ticks
            (quiet db)
          ≡ (ok false, quiet after))
        × Row id (record e { lease_until = until }) after
        × (after.outbox ≡ db.outbox)
  unfolding heartbeat_loop run_sql run renewed is_held
  renewed_through id run_token [] {e} {db} silent row held = (db, e.lease_until, refl, row, refl)
  renewed_through id run_token (t ∷ ticks) {e} {db} (silent, rest) row held =
      let until = t.at + seconds cfg.lease_ttl_seconds in
      let (next, answer, kept, same) = renews id owner run_token until row held in
      let (after, last, looped, there, still) =
        renewed_through id run_token ticks {e = renewed until e} {db = next} rest kept held in
      (after, last, rw (silent db, answer) looped, there, still ∙ same)

  claimed-held :
      (id : ℕ) (run_token : String) (now until : Time) (e : TimerExecution)
      → (e.id == id) ≡ true
      → is_held id owner run_token (claimed owner run_token now until e) ≡ true
  unfolding is_held claimed
  claimed-held id run_token now until e t = rw (t, eq_refl owner, eq_refl run_token) refl

  ran :
      (run_token : String) (snapshot : CallbackSnapshot) (c : TimerExecution)
      (db next after : Database)
      → json.decode_snapshot c.request_snapshot ≡ some snapshot
      → IsSilent world.before_result
      → heartbeat_loop json cfg owner text_of world c.id run_token world.ticks (quiet db)
        ≡ (ok false, quiet next)
      → finish json cfg owner text_of world c run_token (world.execute snapshot c.id) (quiet next)
        ≡ (ok true, quiet after)
      → run_claimed json cfg owner text_of world c run_token (quiet db) ≡ (ok true, quiet after)
  unfolding run_claimed run_sql run
  ran run_token snapshot c db next after decoded silent looped finished =
      rw (decoded, run_claimed) (rw looped (rw (silent next) finished))

  processed :
      (msg : StreamMessage) (run_token : String) (c : TimerExecution) (db next after : Database)
      → is_malformed msg ≡ false
      → world.run_token ≡ some run_token
      → claim world.after_claim
          (pos_part msg.execution_id)
          owner
          run_token
          world.started_at
          (seconds cfg.lease_ttl_seconds)
          (quiet db)
        ≡ (ok (some c, true), quiet next)
      → run_claimed json cfg owner text_of world c run_token (quiet next) ≡ (ok true, quiet after)
      → process json cfg owner text_of world msg (quiet db) ≡ (ok true, quiet after)
  unfolding process process_with after_claim run_sql run
  processed msg run_token c db next after sound token answer worked =
      rw (sound, token, answer, worked) refl

  -- The row when the callback has answered, and that anything which is reached from there through
  -- what follows the callback is reached by the message.
  pub quiet-process :
      (msg : StreamMessage) (run_token : String) (snapshot : CallbackSnapshot) (db : Database)
      {e : TimerExecution} (Q : Database → Type 0)
      → is_malformed msg ≡ false
      → Row (pos_part msg.execution_id) e db
      → is_claimable world.started_at e ≡ true
      → json.decode_snapshot e.request_snapshot ≡ some snapshot
      → IsQuiet world run_token
      → (let c =
            claimed owner run_token world.started_at
              (world.started_at + seconds cfg.lease_ttl_seconds)
              e in
          (last : Option Time) (next : Database)
          → Row e.id (record c { lease_until = last }) next
          → is_held e.id owner run_token (record c { lease_until = last }) ≡ true
          → next.outbox ≡ db.outbox
          → (after : Database) × (finish json cfg owner text_of world c run_token
                (world.execute snapshot e.id)
                (quiet next)
              ≡ (ok true, quiet after))
            × Q after)
      → (after : Database) × (process json cfg owner text_of world msg (quiet db)
          ≡ (ok true, quiet after))
        × Q after
  unfolding claimed is_held
  quiet-process msg run_token snapshot db {e} Q sound row due decoded q ends =
      let id = pos_part msg.execution_id in
      let until = world.started_at + seconds cfg.lease_ttl_seconds in
      let named : (e.id == id) ≡ true = row_id id db.executions row.here in
      let it : id ≡ e.id = sym (==→eq e.id id named) in
      let (claimed_db, answer, kept, same) =
        claim_wins id owner run_token world.after_claim world.started_at
          (seconds cfg.lease_ttl_seconds) {e = e} {db = db} q.after_claim_silent row due in
      let c = claimed owner run_token world.started_at until e in
      let held = claimed-held e.id run_token world.started_at until e (rw it at named) in
      let (next, last, looped, there, still) =
        renewed_through e.id run_token world.ticks {e = c} {db = claimed_db} q.ticks_silent
          (subst (λ n. Row n c claimed_db) it kept) held in
      let (after, finished, end) = ends last next there held (still ∙ same) in
      (
        after,
        processed msg run_token c db claimed_db after sound q.token answer (
            ran run_token snapshot c claimed_db next after decoded q.result_silent looped finished),
        end,
      )
