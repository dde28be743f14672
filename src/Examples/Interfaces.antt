-- ===== src/Examples/Interfaces.antt =====
-- Messages and callbacks.
use chrono_flow.Common.{
  length, pos, ◌≤◌, String, ◌≡◌, refl, ◌↔◌, Bool, true, false, none, some, List, [], ◌∷◌, arith,
}
use chrono_flow.Effect.{ok}
use chrono_flow.Model.Execution.{CallbackSnapshot}
use chrono_flow.Service.Callback.{validate_url, is_reserved_header}
use chrono_flow.Service.Callback.Execute.{
  Headers, get_header, callback_headers, execute, HttpResponse, Http,
}
use chrono_flow.Service.Callback.Execute.Requests.{callback_headers_reserved, IsCanonical}
use chrono_flow.Service.Callback.Execute.Responses.{IsAnswered, execute_lem}
use chrono_flow.Service.Stream.Messages.{decode_message, print_event_id, published_fields, Entry}
use chrono_flow.Service.Stream.Messages.Delivery.{decode_message-published}
use chrono_flow.Service.Worker.Loop.{starting, start, Turn}
use chrono_flow.Service.Worker.Loop.Reclaiming.{reclaimed_of, pending_messages, start_reclaims}
use chrono_flow.Examples.Data.{stored, stored-IsStore, ready_event, worker_cfg, one_host}
use chrono_flow.Common.Decimal.{format_int}

decode_message-published_example :
    decode_message
      (λ s. s)
      (record { id = "1-0"; values = stored (published_fields (λ p. "{}") ready_event) })
    ≡ record {
      id = "1-0";
      event_id = "execution-ready-1";
      event_type = "EXECUTION_READY";
      execution_id = pos 1;
      payload = "{}";
      decode_error = "";
    }
unfolding print_event_id format_int
decode_message-published_example =
    decode_message-published stored stored-IsStore (λ s. s) (λ p. "{}") "1-0" ready_event
      (omega arith)

-- One page with one entry, and an empty cursor after it.
abbrev page : List Entry × String
page = (record { id = "1-0"; values = [] } ∷ [], "")

abbrev claiming : Turn
claiming = record {
  now = 10;
  claimed_at = 11;
  claim_answer = λ cursor. ok (some page);
  read_answer = ok none;
  takes = λ message. true;
}

start_reclaims_example :
    (reclaimed_of (start (λ s. s) worker_cfg (claiming ∷ []) (starting 5)).submitted
      ≡ pending_messages (λ s. s) worker_cfg (page ∷ []))
    × ((start (λ s. s) worker_cfg (claiming ∷ []) (starting 5)).reclaim_cursor ≡ "0-0")
unfolding reclaimed_of
start_reclaims_example =
    start_reclaims (λ s. s) worker_cfg (claiming ∷ []) (page ∷ []) (starting 5)
      (refl, omega arith, (λ message. refl), tt)

-- Headers with canonical names, and a server that answers 200 with two bytes.
abbrev answer_200 : HttpResponse
answer_200 = record { status_code = 200; body = b'o' ∷ b'k' ∷ []; broken = none }

abbrev plain_http : Http
plain_http = record {
  canonical = λ name. name;
  accepts = λ method url. true;
  send = λ request. ok answer_200;
}

plain_laws : IsCanonical one_host plain_http
plain_laws = record { apart = λ e. cc; reserved = λ name key h e. rw e h }

-- A timer that tries to name another host and another execution.
abbrev forged : Headers
forged = ("host", "b") ∷ ("idempotency-key", "chronoflow-execution-8") ∷ []

host_reserved : is_reserved_header one_host "host" ≡ true
unfolding is_reserved_header
host_reserved = refl

callback_headers_reserved_example :
    (get_header "Idempotency-Key" (callback_headers one_host plain_http forged 7)
      ≡ some "chronoflow-execution-7")
    × (get_header "X-ChronoFlow-Execution-ID" (callback_headers one_host plain_http forged 7)
        ≡ some "7")
    × (get_header "host" (callback_headers one_host plain_http forged 7)
        ≡ get_header "host" (callback_headers one_host plain_http [] 7))
unfolding format_int
callback_headers_reserved_example =
    callback_headers_reserved one_host plain_http plain_laws forged 7 "host" host_reserved

abbrev callback : CallbackSnapshot
callback = record { url = "https://example.com"; method = "POST"; body = ""; headers = [] }

execute_lem_example :
    (length (execute one_host plain_http 1024 false callback 7).response_body ≤ 1024)
    × (((execute one_host plain_http 1024 false callback 7).error ≡ none) ↔ (
        (validate_url one_host "https://example.com" false ≡ ok tt)
        × (Path Bool true true)
        × IsAnswered one_host plain_http 1024 false callback 7))
execute_lem_example = execute_lem one_host plain_http 1024 false callback 7 (omega arith)
