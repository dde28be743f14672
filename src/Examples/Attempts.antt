-- ===== src/Examples/Attempts.antt =====
-- One message that is worked on without disturbance, and three in a row.
use chrono_flow.Common.{
  ltb, ◌+◌, String, ◌≡◌, refl, if◌then◌else◌, true, false, some, List, [], ◌∷◌, arith,
}
use chrono_flow.Effect.{Error, message, ok}
use chrono_flow.Model.Timer.{Time}
use chrono_flow.Model.Execution.{TimerExecution, CallbackSnapshot, retry_wait, failed}
use chrono_flow.Database.{find_where}
use chrono_flow.Repository.Executions.{is_claimable}
use chrono_flow.Repository.Executions.OneRow.{Row}
use chrono_flow.Service.Backoff.{exponent, retry_backoff}
use chrono_flow.Service.Worker.{is_malformed, is_retryable_callback_failure, process, Surroundings}
use chrono_flow.Service.Worker.Quiet.{IsQuiet}
use chrono_flow.Service.Worker.Completion.{process_completes, IsSuccessOf}
use chrono_flow.Service.Worker.Failing.{IsFailureOf}
use chrono_flow.Service.Worker.Delivered.{delivered, delivered_ends}
use chrono_flow.Service.Worker.Exhaustion.{work_all, work_all_exhausts, Attempt, IsFailing}
use chrono_flow.Examples.Data.{
  stored, stored-IsStore, ready_event, no_json, waiting, tables, session, worker_cfg, calm,
  delivery,
}

found-Row : Row 1 waiting (tables waiting)
unfolding find_where
found-Row = record { below = (omega arith, tt); here = refl }

is_open : is_claimable 100 waiting ≡ true
unfolding is_claimable
is_open = refl

not_malformed : is_malformed delivery ≡ false
unfolding is_malformed
not_malformed = refl

abbrev get_a : CallbackSnapshot
get_a = record { url = "http://a"; method = "POST"; body = ""; headers = [] }

abbrev text_of : Error → String
text_of e = "error"

calm-IsQuiet : IsQuiet calm "t1"
calm-IsQuiet = record {
  token = refl;
  after_claim_silent = λ db. refl;
  ticks_silent = ((λ db. refl), tt);
  result_silent = λ db. refl;
}

process_completes_example :
    let end = process no_json worker_cfg "w1" text_of calm delivery (session waiting) in
    (end.0 ≡ ok true)
    × ((r : TimerExecution) × Row 1 r end.1.db
        × IsSuccessOf no_json worker_cfg "w1" text_of calm waiting (calm.execute get_a 1) r)
process_completes_example =
    process_completes no_json worker_cfg "w1" text_of calm delivery "t1" get_a (tables waiting)
      not_malformed found-Row is_open refl calm-IsQuiet refl

-- The callback answers 500.
abbrev broken : Time → Surroundings
broken started_at = record calm {
  started_at = started_at;
  ticks = [];
  execute = λ snapshot id. record {
    response_code = 500;
    response_body = "no";
    error = some (message "callback returned status 500");
  };
  finished_at = started_at + 100;
}

broken-IsQuiet : (started_at : Time) → IsQuiet (broken started_at) "t1"
broken-IsQuiet started_at = record {
  token = refl;
  after_claim_silent = λ db. refl;
  ticks_silent = tt;
  result_silent = λ db. refl;
}

delivered_ends_example :
    let event = delivered stored (λ s. s) (λ p. "{}") "1-0" ready_event in
    let end = process no_json worker_cfg "w1" text_of (broken 100) event (session waiting) in
    (end.0 ≡ ok true)
    × ((r : TimerExecution) × Row 1 r end.1.db
        × IsFailureOf no_json worker_cfg "w1" text_of
            (broken 100)
            waiting
            ((broken 100).execute get_a 1)
            (message "callback returned status 500")
            r
            (tables waiting)
            end.1.db)
delivered_ends_example =
    delivered_ends stored stored-IsStore (λ s. s) (λ p. "{}") "1-0" ready_event (omega arith)
      (omega arith) no_json worker_cfg "w1" text_of (broken 100) "t1" get_a (tables waiting)
      found-Row is_open refl (broken-IsQuiet 100) refl

abbrev attempt_at : Time → Attempt
attempt_at started_at = record {
  msg = delivery;
  world = broken started_at;
  run_token = "t1";
  failure = message "callback returned status 500";
}

attempt_at-IsFailing :
    (at : Time) → IsFailing no_json worker_cfg "w1" text_of 1 get_a (attempt_at at)
unfolding is_retryable_callback_failure
attempt_at-IsFailing at = record {
  sound = not_malformed;
  names = refl;
  calm = broken-IsQuiet at;
  told = refl;
  retryable = refl;
}

-- Of three attempts, the delays between them are two and four seconds.
abbrev later_attempts : List Attempt
later_attempts = attempt_at 2000000200 ∷ attempt_at 6000000300 ∷ []

work_all_exhausts_example :
    (r : TimerExecution) × Row 1 r
      (work_all no_json worker_cfg "w1" text_of
        (attempt_at 100 ∷ later_attempts)
        (session waiting)).db
    × (r.attempt ≡ 3)
    × (r.status ≡ (if ltb r.attempt 3 then retry_wait else failed))
unfolding retry_backoff exponent
work_all_exhausts_example =
    work_all_exhausts no_json worker_cfg "w1" text_of (attempt_at 100) later_attempts get_a
      (tables waiting) waiting found-Row is_open refl
      (
        attempt_at-IsFailing 100,
        (attempt_at-IsFailing 2000000200, (attempt_at-IsFailing 6000000300, tt)),
      )
      (omega arith, (omega arith, tt)) (λ k h. refl) (omega arith)
