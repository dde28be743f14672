-- ===== src/Examples/Services.antt =====
-- Configurations, delays, addresses, the stream, the key of the API and the dispatcher.
use chrono_flow.Common.{
  pos, ◌*◌, ◌^◌, String, ◌≡◌, refl, ◌↔◌, ◌⊎◌, inl, true, false, some, [], ◌∷◌, arith,
}
use chrono_flow.Effect.{ok}
use chrono_flow.Config.{
  normalize_lease_ttl, normalize_heartbeat, normalize_retry_base, normalize_worker_config,
  normalize_scheduler_config, normalize_outbox_config, normalize_recovery_config,
  normalize_security_config, OutboxConfig, WorkerConfig,
}
use chrono_flow.Config.Loading.{
  normalize_runtime_config, normalize_migration_config, normalize_monitoring_config, normalized,
  set_defaults,
}
use chrono_flow.Config.Bounds.{normalize_worker_config-IsWorkable, IsWorkable}
use chrono_flow.Model.Timer.{millisecond, second}
use chrono_flow.Service.Backoff.{exponent, retry_backoff}
use chrono_flow.Service.Backoff.Bounds.{delay_seconds, retry_backoff_lem}
use chrono_flow.Service.Callback.{is_private_address, validate_url, dial_address, ParsedUrl}
use chrono_flow.Service.Callback.Safety.{validate_url_iff, IsPublic}
use chrono_flow.Service.Stream.{stream_id_less, trim_boundary, StreamId, PendingSummary}
use chrono_flow.Service.Stream.Boundary.{trim_boundary_spares}
use chrono_flow.Api.{is_api_path, bearer_token, provided_key, api_security, Request, Text, next}
use chrono_flow.Api.Access.{api_security_iff}
use chrono_flow.Metrics.{new_reporter, after_dispatch}
use chrono_flow.Metrics.Backlog.{unpublished, backlog_shown}
use chrono_flow.Database.{update_where, count_where, order_by, run_sql}
use chrono_flow.Repository.Outbox.{
  update_events, is_publishable, select_publishable, with_claim, is_among, claim_events,
  claim_batch, is_owned, published, mark_published, count_unpublished,
}
use chrono_flow.Service.Dispatcher.{
  refresh_backlog_metric, dispatch_event, dispatch_events, dispatch_once, Round,
}
use chrono_flow.Service.Dispatcher.Confirmed.{PublishedConfirmed, dispatch_once-PublishedConfirmed}
use chrono_flow.Examples.Data.{
  waiting, tables, session, worker_cfg, public_address, one_host, vectors,
}

-- A heartbeat as long as the lease.
abbrev careless : WorkerConfig
careless = record worker_cfg { heartbeat_seconds = pos 30 }

normalize_worker_config-IsWorkable_example : IsWorkable (normalize_worker_config careless)
normalize_worker_config-IsWorkable_example = normalize_worker_config-IsWorkable careless refl

defaults_kept : normalized (λ text. text) set_defaults ≡ set_defaults
unfolding normalized set_defaults normalize_runtime_config normalize_migration_config
    normalize_scheduler_config normalize_outbox_config normalize_worker_config normalize_lease_ttl
    normalize_heartbeat normalize_retry_base normalize_recovery_config normalize_security_config
    normalize_monitoring_config
defaults_kept = refl

heartbeat_corrected : (normalize_worker_config careless).heartbeat_seconds ≡ pos 10
unfolding normalize_worker_config normalize_heartbeat normalize_lease_ttl
heartbeat_corrected = refl

retry_backoff_lem_example : retry_backoff (pos 2) (pos 60) 3 ≡ pos (delay_seconds 2 60 3 * second)
retry_backoff_lem_example = retry_backoff_lem 2 60 3 (omega arith) (omega arith)

third_delay : retry_backoff (pos 2) (pos 60) 3 ≡ pos (8 * second)
unfolding retry_backoff exponent
third_delay = refl

-- A base of 2^33 seconds overflows at the 31st attempt: there is no delay.
overflowed_delay : retry_backoff (pos (2 ^ 33)) (pos (2 ^ 40)) 31 ≡ pos 0
unfolding retry_backoff exponent
overflowed_delay = refl

validate_url_iff_example : (validate_url one_host "https://example.com" false ≡ ok tt) ↔ (
    (url : ParsedUrl) × (one_host.parse_url "https://example.com" ≡ some url)
    × IsPublic one_host url)
validate_url_iff_example = validate_url_iff one_host "https://example.com"

dialled : dial_address false (public_address ∷ []) ≡ ok public_address
unfolding dial_address is_private_address
dialled = refl

-- The oldest pending entry is older than the cutoff.
abbrev old_pending : PendingSummary
old_pending = record { count = 2; lower = record { milliseconds = 3; sequence = 1 } }

abbrev pending_entry : StreamId
pending_entry = record { milliseconds = 3; sequence = 4 }

not_below : stream_id_less pending_entry (record { milliseconds = 3; sequence = 1 }) ≡ false
unfolding stream_id_less
not_below = refl

trim_boundary_spares_example :
    stream_id_less pending_entry (trim_boundary old_pending (9 * millisecond)) ≡ false
trim_boundary_spares_example =
    trim_boundary_spares old_pending (9 * millisecond) pending_entry (inl (omega arith, not_below))

abbrev plain_text : Text
plain_text = record { trim_space = λ s. s; to_lower = λ s. s }

abbrev signed_request : Request
signed_request = record {
  path = "/api/timers";
  method = "GET";
  has_body = false;
  x_api_key = "";
  authorization = "bearer secret";
  origin = "";
}

token_read : provided_key plain_text signed_request ≡ "secret"
unfolding provided_key bearer_token
token_read = refl

api_security_iff_example :
    ((api_security plain_text "secret" (pos 1024) signed_request).0 ≡ next) ↔ (
      (is_api_path "/api/timers" ≡ false)
      ⊎ (Path String "secret" "")
      ⊎ (provided_key plain_text signed_request ≡ "secret"))
api_security_iff_example = api_security_iff plain_text "secret" (pos 1024) signed_request

abbrev pub answering : Round
answering = record {
  live = λ event. true;
  publish = λ event. ok "1-0";
  published_at = λ event. 120;
}

abbrev pub outbox_cfg : OutboxConfig
outbox_cfg = record {
  poll_interval_ms = pos 200;
  batch_size = pos 100;
  claim_ttl_seconds = pos 30;
  max_backoff_seconds = pos 30;
  stream = "s";
  consumer_group = "g";
  stream_max_len = pos 0;
}

nothing_published : PublishedConfirmed answering (tables waiting)
nothing_published = ((λ h. cc), tt)

dispatch_once-PublishedConfirmed_example :
    PublishedConfirmed answering
      (dispatch_once outbox_cfg "d1"
        (λ e. "error")
        answering
        (λ id. true)
        110
        (session waiting)).1.db
dispatch_once-PublishedConfirmed_example =
    dispatch_once-PublishedConfirmed answering outbox_cfg "d1" (λ e. "error") (λ id. true) 110
      (session waiting) nothing_published

one_published :
    (dispatch_once outbox_cfg "d1" (λ e. "error") answering (λ id. true) 110 (session waiting)).0
    ≡ ok (record { published = 1; failed = 0; backlog = some 0 })
unfolding dispatch_once dispatch_events dispatch_event refresh_backlog_metric claim_batch
    select_publishable is_publishable order_by claim_events update_events is_among with_claim
    mark_published is_owned published count_unpublished update_where count_where run_sql
one_published = refl

backlog_shown_example :
    (after_dispatch vectors
      (record { published = 1; failed = 0; backlog = some 0 })
      (new_reporter vectors)).outbox_unpublished
    ≡ unpublished
        (dispatch_once outbox_cfg "d1"
          (λ e. "error")
          answering
          (λ id. true)
          110
          (session waiting)).1.db
backlog_shown_example =
    backlog_shown vectors outbox_cfg "d1" (λ e. "error") answering (λ id. true) 110
      (session waiting) (new_reporter vectors) one_published refl
