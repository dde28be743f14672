-- ===== src/Service/Worker/Completion.antt =====
-- A message whose callback succeeds, through process of internal/service/stream_worker.go.
use chrono_flow.Common.{pos_part, ℕ, ◌+◌, ◌-◌, ◌/◌, String, ◌≡◌, refl, true, false, none, some}
use chrono_flow.Effect.{run, Error, ok}
use chrono_flow.Model.Timer.{millisecond}
use chrono_flow.Model.Execution.{TimerExecution, CallbackSnapshot, success}
use chrono_flow.Database.{run_sql, Database}
use chrono_flow.Repository.Executions.{is_claimable, claimed, is_held, succeeded}
use chrono_flow.Repository.Executions.Wins.{completes}
use chrono_flow.Repository.Executions.OneRow.{quiet, Row}
use chrono_flow.Service.Worker.{
  is_malformed, finish_success, finish, process, CallbackResult, Surroundings,
}
use chrono_flow.Config.{seconds, WorkerConfig}
use chrono_flow.Repository.Schedule.{Json}
use chrono_flow.Service.Stream.Messages.{StreamMessage}
use chrono_flow.Service.Worker.Quiet.{IsQuiet, quiet-process}

module _ (json : Json) (cfg : WorkerConfig) (owner : String) (text_of : Error → String)
    (world : Surroundings) where
  -- What the row is at the end.
  pub record IsSuccessOf (e : TimerExecution) (result : CallbackResult) (r : TimerExecution)
      : Type 0 where
    pub succeeds : r.status ≡ success
    pub counted : r.attempt ≡ e.attempt + 1
    pub code : r.response_code ≡ result.response_code
    pub body : r.response_body ≡ result.response_body

  finishes :
      (id : ℕ) (run_token : String) (claim_at : TimerExecution) (result : CallbackResult)
      {e : TimerExecution} {db : Database}
      → claim_at.id ≡ id
      → result.error ≡ none
      → Row id e db
      → is_held id owner run_token e ≡ true
      → (after : Database) × (duration : ℕ) × (finish json cfg owner text_of world claim_at
            run_token result
            (quiet db)
          ≡ (ok true, quiet after))
        × Row id
            (succeeded world.finished_at result.response_code result.response_body duration e)
            after
  unfolding finish finish_success run_sql run
  finishes id run_token claim_at result fits fine row held =
      let duration = (world.finished_at - world.started_at) / millisecond in
      let (after, answer, there) =
        completes id owner run_token world.finished_at result.response_code result.response_body
          duration row held in
      (after, duration, rw (fine, fits, answer) refl, there)

  -- From a table with distinct ids and without failing statements: a message for an execution that is
  -- claimable, while nobody else writes and with any ticks of the heartbeat, is acknowledged once the
  -- callback has succeeded, and the row of the execution is SUCCESS then, with one more attempt and
  -- the response of the callback.
  pub process_completes :
      (msg : StreamMessage) (run_token : String) (snapshot : CallbackSnapshot) (db : Database)
      {e : TimerExecution}
      → is_malformed msg ≡ false
      → Row (pos_part msg.execution_id) e db
      → is_claimable world.started_at e ≡ true
      → json.decode_snapshot e.request_snapshot ≡ some snapshot
      → IsQuiet world run_token
      → (world.execute snapshot e.id).error ≡ none
      → ((process json cfg owner text_of world msg (quiet db)).0 ≡ ok true)
        × ((r : TimerExecution) × Row e.id r
              (process json cfg owner text_of world msg (quiet db)).1.db
            × IsSuccessOf e (world.execute snapshot e.id) r)
  unfolding claimed succeeded
  process_completes msg run_token snapshot db {e} sound row due decoded q fine =
      let result = world.execute snapshot e.id in
      let c =
        claimed owner run_token world.started_at (world.started_at + seconds cfg.lease_ttl_seconds)
          e in
      let (after, answer, end) =
        quiet-process json cfg owner text_of world msg run_token snapshot db
          (λ after. (r : TimerExecution) × Row e.id r after × IsSuccessOf e result r) sound row due
          decoded q
          (λ last next there held same.
            let (after, duration, finished, end) =
              finishes e.id run_token c result {e = record c { lease_until = last }} {db = next}
                refl fine there held in
            (
              after,
              finished,
              (
                succeeded world.finished_at result.response_code result.response_body duration
                    (record c { lease_until = last }),
                end,
                record { succeeds = refl; counted = refl; code = refl; body = refl },
              ),
            )) in
      rw answer (refl, end)
