-- ===== src/Service/Callback/Execute.antt =====
-- Execute of internal/pkg/callback/client.go: the request that is sent, and what is made of the
-- response. Bodies are bytes. net/http is a parameter: how a request goes out, and the canonical
-- form under which a header is kept.
pub mod Requests
pub mod Responses
use Prim.Native.String.{◌++◌ as append}
use chrono_flow.Common.{
  ltb, leb, if◌then◌else◌, Bytes, length, take, pos_part, wrap64, ℕ, ◌+◌, String, Bool, ◌||◌,
  Option, none, some, List, [], ◌∷◌, str_eq,
}
use chrono_flow.Common.Decimal.{format_int}
use chrono_flow.Effect.{Error, message, wrap, Result, ok, err}
use chrono_flow.Model.Execution.{CallbackSnapshot}
use chrono_flow.Service.Callback.{validate_url, is_reserved_header, Net}

abbrev pub Headers : Type 0
Headers = List (String × String)

pub record HttpRequest : Type 0 where
  pub method : String
  pub url : String
  pub body : Option String  -- none is a nil reader
  pub headers : Headers

-- `body` is what can be read, and `broken` an error after that.
pub record HttpResponse : Type 0 where
  pub status_code : ℕ
  pub body : Bytes
  pub broken : Option Error

-- `canonical` is textproto.CanonicalMIMEHeaderKey; `accepts` is whether http.NewRequest takes the
-- method and the URL.
pub record Http : Type 0 where
  pub canonical : String → String
  pub accepts : String → String → Bool
  pub send : HttpRequest → Result HttpResponse

pub record CallbackResponse : Type 0 where
  pub response_code : ℕ
  pub response_body : Bytes
  pub error : Option Error

-- http.Header.Get of a key in canonical form.
unfoldable pub get_header : String → Headers → Option String
get_header key [] = none
get_header key ((k, v) ∷ headers) = if str_eq k key then some v else get_header key headers

-- http.Header.Set of a key in canonical form.
unfoldable pub set_header : String → String → Headers → Headers
set_header key value [] = (key, value) ∷ []
set_header key value ((k, v) ∷ headers) =
    if str_eq k key then (key, value) ∷ headers else (k, v) ∷ set_header key value headers

abbrev pub body_reader : String → Option String
body_reader body = if str_eq body "" then none else some body

abbrev pub with_result : ℕ → Bytes → Error → CallbackResponse
with_result code body error = record {
  response_code = code;
  response_body = body;
  error = some error;
}

-- `io.LimitReader(response.Body, c.maxResponseBody+1)`, in int64.
abbrev pub limited : ℕ → Bytes → Bytes
limited max_response_body body = take (pos_part (wrap64 (max_response_body + 1))) body

-- What is made of the bytes that have been read.
unfoldable pub judged : ℕ → ℕ → Bytes → CallbackResponse
judged max_response_body status_code body =
    if ltb max_response_body (length body)
    then with_result status_code (take max_response_body body)
        (message "callback response exceeds maximum size")
    else if ltb status_code 200 || leb 300 status_code
    then with_result status_code body (message "HTTP callback returned a non-2xx status code")
    else record { response_code = status_code; response_body = body; error = none }

-- An error of reading counts only where the limit does not cut it off.
abbrev pub read_error : ℕ → HttpResponse → Option Error
read_error max_response_body response =
    if ltb (length response.body) (pos_part (wrap64 (max_response_body + 1)))
    then response.broken
    else none

abbrev pub after_reading : ℕ → HttpResponse → Option Error → CallbackResponse
after_reading max_response_body response none =
    judged max_response_body response.status_code (limited max_response_body response.body)
after_reading max_response_body response (some e) =
    with_result response.status_code [] (wrap "read callback response" e)

unfoldable pub answered : ℕ → HttpResponse → CallbackResponse
unfolding judged
answered max_response_body response =
    after_reading max_response_body response (read_error max_response_body response)

unfoldable pub check_redirect : Net → Bool → ℕ → String → Result (Unit {0})
check_redirect net allow_private hops url =
    if leb 5 hops
    then err (message "callback redirect limit exceeded")
    else validate_url net url allow_private

module _ (net : Net) (http : Http) where
  -- The headers of the snapshot, in the order in which the loop over the map comes to them.
  unfoldable pub set_headers : Headers → Headers → Headers
  set_headers headers [] = headers
  set_headers headers ((key, value) ∷ more) =
      set_headers
        (if is_reserved_header net key
          then headers
          else set_header (http.canonical key) value headers)
        more

  abbrev pub first_headers : Headers
  first_headers =
      set_header (http.canonical "User-Agent") "ChronoFlow/1.0"
        (set_header (http.canonical "Content-Type") "application/json" [])

  unfoldable pub callback_headers : Headers → ℕ → Headers
  callback_headers snapshot execution_id =
      let stable_id = format_int execution_id in
      set_header (http.canonical "X-ChronoFlow-Execution-ID") stable_id (
        set_header (http.canonical "Idempotency-Key") (append "chronoflow-execution-" stable_id)
          (set_headers first_headers snapshot))

  unfoldable pub callback_request : CallbackSnapshot → ℕ → HttpRequest
  callback_request snapshot execution_id = record {
    method = snapshot.method;
    url = snapshot.url;
    body = body_reader snapshot.body;
    headers = callback_headers snapshot.headers execution_id;
  }

  module _ (max_response_body : ℕ) (allow_private : Bool) where
    abbrev pub sent : Result HttpResponse → CallbackResponse
    sent (ok response) = answered max_response_body response
    sent (err e) = with_result 0 [] (wrap "execute HTTP callback" e)

    abbrev pub validated : CallbackSnapshot → ℕ → Result (Unit {0}) → CallbackResponse
    validated snapshot execution_id (err e) = with_result 0 [] e
    validated snapshot execution_id (ok done) =
        if http.accepts snapshot.method snapshot.url
        then sent (http.send (callback_request snapshot execution_id))
        else with_result 0 [] (message "create callback request")

    unfoldable pub execute : CallbackSnapshot → ℕ → CallbackResponse
    unfolding answered
    execute snapshot execution_id =
        validated snapshot execution_id (validate_url net snapshot.url allow_private)
