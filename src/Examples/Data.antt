-- ===== src/Examples/Data.antt =====
-- A timer, an execution of it in three states, its event, and what surrounds the program.
use chrono_flow.Common.{
  if◌then◌else◌, pos, ℕ, ◌+◌, String, ◌≡◌, refl, inl, inr, Bool-cases, false, Option, none, some,
  List, [], ◌∷◌, arith, str_eq,
}
use chrono_flow.Metrics.{Vectors}
use chrono_flow.Config.{SchedulerConfig, WorkerConfig}
use chrono_flow.Model.Timer.{TimerDefinition, active, catch_up}
use chrono_flow.Model.Execution.{TimerExecution, pending, running}
use chrono_flow.Model.Outbox.{OutboxEvent, execution_ready, ready_id}
use chrono_flow.Database.{Database, Session}
use chrono_flow.Repository.Schedule.{Json}
use chrono_flow.Repository.Invariant.{Invariant}
use chrono_flow.Service.Cron.{CronLibrary}
use chrono_flow.Service.Callback.{Address, Net}
use chrono_flow.Service.Stream.Messages.{
  StreamMessage, Fields, field, print_int, FieldValue, int64, int, text, bytes, other, absent,
}
use chrono_flow.Service.Stream.Messages.Delivery.{IsStore}
use chrono_flow.Service.Worker.{Surroundings}

abbrev pub no_json : Json
no_json = record {
  decode_headers = λ text. some [];
  encode_headers = λ headers. some "{}";
  decode_snapshot =
      λ text. some (record { url = "http://a"; method = "POST"; body = ""; headers = [] });
  encode_snapshot = λ snapshot. some "{}";
}

-- A schedule that fires every ten nanoseconds.
abbrev pub every_ten : CronLibrary
every_ten expr = some (λ t. some (t + 10))

abbrev pub minute_timer : TimerDefinition
minute_timer = record {
  id = 1;
  app = "app";
  name = "timer";
  cron_expr = "0 * * * * *";
  callback_url = "http://a";
  callback_method = "POST";
  callback_body = "";
  callback_headers = "";
  status = active;
  next_fire_at = some 100;
  misfire_policy = catch_up;
  max_catch_up = pos 2;
  version = 1;
}

abbrev pub waiting : TimerExecution
waiting = record {
  id = 1;
  timer_id = 1;
  scheduled_at = 100;
  status = pending;
  attempt = 0;
  max_attempts = 3;
  next_attempt_at = none;
  lease_owner = "";
  lease_until = none;
  run_token = "";
  last_enqueued_at = some 100;
  request_snapshot = "{}";
  started_at = none;
  finished_at = none;
  response_code = 0;
  response_body = "";
  error_message = "";
  duration_ms = 0;
}

-- Claimed at 100 with a lease up to 500.
abbrev pub leased_row : TimerExecution
leased_row = record waiting {
  status = running;
  attempt = 1;
  lease_owner = "w1";
  lease_until = some 500;
  run_token = "t1";
  started_at = some 100;
}

abbrev pub ready_event : OutboxEvent
ready_event = record {
  id = 1;
  event_id = ready_id 1;
  aggregate_id = 1;
  event_type = execution_ready;
  payload = record {
    event_id = ready_id 1;
    execution_id = 1;
    event_type = execution_ready;
    created_at = 100;
  };
  available_at = 100;
  published_at = none;
  published_message_id = "";
  attempts = 0;
  next_attempt_at = none;
  claim_owner = "";
  claim_until = none;
  last_error = "";
}

abbrev pub tables : TimerExecution → Database
tables e = record {
  timers = minute_timer ∷ [];
  executions = e ∷ [];
  outbox = ready_event ∷ [];
  next_timer_id = 2;
  next_execution_id = 2;
  next_event_id = 2;
}

-- A session without faults.
abbrev pub session : TimerExecution → Session
session e = record { db = tables e; faults = [] }

pub waiting-Invariant : Invariant (tables waiting)
waiting-Invariant = record {
  consistent = (ground arith, tt);
  numbered = (omega arith, tt);
  slotted = (refl, tt);
}

abbrev pub worker_cfg : WorkerConfig
worker_cfg = record {
  pool_size = pos 100;
  read_count = pos 20;
  read_block_ms = pos 2000;
  lease_ttl_seconds = pos 30;
  heartbeat_seconds = pos 10;
  reclaim_idle_seconds = pos 30;
  reclaim_interval_seconds = pos 10;
  http_timeout_seconds = pos 12;
  max_response_bytes = pos 1024;
  retry_base_seconds = pos 2;
  retry_max_seconds = pos 60;
}

abbrev pub scheduler_cfg : SchedulerConfig
scheduler_cfg = record {
  poll_interval_ms = pos 500;
  batch_size = pos 100;
  misfire_grace_seconds = pos 0;
  default_max_catch_up = pos 10;
}

-- The callback answers 200 between two statements of the worker.
abbrev pub calm : Surroundings
calm = record {
  run_token = some "t1";
  started_at = 100;
  after_claim = λ db. db;
  ticks = record { at = 150; others = λ db. db } ∷ [];
  execute = λ snapshot id. record { response_code = 200; response_body = "ok"; error = none };
  before_result = λ db. db;
  finished_at = 200;
}

abbrev pub delivery : StreamMessage
delivery = record {
  id = "1-0";
  event_id = "execution-ready-1";
  event_type = "EXECUTION_READY";
  execution_id = pos 1;
  payload = "{}";
  decode_error = "";
}

-- A name server and a URL parser that know one host, example.com.
abbrev pub public_address : Address
public_address = record {
  is_loopback = false;
  is_private = false;
  is_link_local_unicast = false;
  is_link_local_multicast = false;
  is_unspecified = false;
  is_multicast = false;
}

abbrev pub one_host : Net
one_host = record {
  parse_url =
      λ text. some (record { scheme = "https"; hostname = "example.com"; has_user = false });
  parse_ip = λ text. none;
  equal_fold = str_eq;
  lower_trimmed = λ text. text;
}

abbrev Series : Type 0
Series = List (String × ℕ)

-- The first series of a label is its value.
abbrev series_value : String → Series → Option ℕ
series_value wanted [] = none
series_value wanted ((label, n) ∷ v) =
    let rest = series_value wanted v in if str_eq label wanted then some n else rest

abbrev zeros : List String → Series
zeros [] = []
zeros (label ∷ labels) = (label, 0) ∷ zeros labels

abbrev previous : Option ℕ → ℕ
previous none = 0
previous (some n) = n

abbrev pub vectors : Vectors
vectors = record {
  Vector = Series;
  made = zeros;
  add = λ label n v. (label, previous (series_value label v) + n) ∷ v;
  set = λ label n v. (label, n) ∷ v;
  value_of = series_value;
}

abbrev stored_value : FieldValue → FieldValue
stored_value (int64 n) = text (print_int n)
stored_value (int n) = text (print_int n)
stored_value (text s) = text s
stored_value (bytes s) = text s
stored_value (other s) = text s
stored_value absent = absent

abbrev pub stored : Fields → Fields
stored [] = []
stored ((k, v) ∷ fields) = (k, stored_value v) ∷ stored fields

field-stored :
    (key : String) (fields : Fields) → field key (stored fields) ≡ stored_value (field key fields)
field-stored key [] = refl
field-stored key ((k, v) ∷ fields) = elim (Bool-cases (str_eq k key)) [
  | inl e ↦ rw (e) refl
  | inr e ↦ rw (e) (field-stored key fields)
]

pub stored-IsStore : IsStore stored
stored-IsStore = record {
  text_kept = λ key s fields e. rw (field-stored key fields, e) refl;
  int64_printed = λ key n fields e. rw (field-stored key fields, e) refl;
}
