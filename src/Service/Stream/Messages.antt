-- ===== src/Service/Stream/Messages.antt =====
-- internal/pkg/redis/stream.go: what Publish writes into an entry of the stream, and how the
-- consumer reads entries.
pub mod Delivery
pub mod EventIds
use Prim.Native.String.{◌++◌ as append}
use chrono_flow.Common.{
  if◌then◌else◌, ℤ, pos, negsuc, suc, ◌-◌, String, Bool, Option, none, some, List, [], ◌∷◌, ◌++◌,
  str_eq,
}
use chrono_flow.Common.Decimal.{format_int, parse_int, NumError, syntax, range}
use chrono_flow.Effect.{Error, message, wrap, Result, ok, err}
use chrono_flow.Model.Outbox.{
  Payload, OutboxEvent, EventType, execution_ready, execution_retry, execution_recovery, EventId,
  ready_id, retry_id, recovery_id,
}

pub record StreamMessage : Type 0 where
  pub id : String
  pub event_id : String
  pub event_type : String
  pub execution_id : ℤ
  pub payload : String
  pub decode_error : String

-- A value of a field: what a type switch tells apart, where `other` is what fmt.Sprint prints of the
-- rest, and `absent` the nil of a missing key.
pub data FieldValue : Type 0 where
  int64 : ℤ → FieldValue
  int : ℤ → FieldValue
  text : String → FieldValue
  bytes : String → FieldValue
  other : String → FieldValue
  absent : FieldValue

abbrev pub Fields : Type 0
Fields = List (String × FieldValue)

-- goredis.XMessage
pub record Entry : Type 0 where
  pub id : String
  pub values : Fields

abbrev pub field : String → Fields → FieldValue
field key [] = absent
field key ((k, v) ∷ fields) = let rest = field key fields in if str_eq k key then v else rest

-- strconv.FormatInt of an integer.
abbrev pub print_int : ℤ → String
print_int (pos n) = format_int n
print_int (negsuc n) = append "-" (format_int (suc n))

-- fmt.Sprint. Its print of a slice of bytes is a list of numbers, which is a parameter.
abbrev pub sprint : (String → String) → FieldValue → String
sprint print_bytes (int64 n) = print_int n
sprint print_bytes (int n) = print_int n
sprint print_bytes (text s) = s
sprint print_bytes (bytes s) = print_bytes s
sprint print_bytes (other s) = s
sprint print_bytes absent = "<nil>"

unfoldable pub stream_int64 : FieldValue → ℤ × Option NumError
stream_int64 (int64 n) = (n, none)
stream_int64 (int n) = (n, none)
stream_int64 (text s) = parse_int s
stream_int64 (bytes s) = parse_int s
stream_int64 (other s) = parse_int s
stream_int64 absent = parse_int "<nil>"

-- The text of the error, without the number that strconv quotes.
abbrev pub decode_error_of : Option NumError → String
decode_error_of none = ""
decode_error_of (some syntax) = "invalid execution_id: invalid syntax"
decode_error_of (some range) = "invalid execution_id: value out of range"

module _ (print_bytes : String → String) where
  -- One round of the loop of decodeMessages.
  unfoldable pub decode_message : Entry → StreamMessage
  unfolding stream_int64
  decode_message entry =
      let (execution_id, error) = stream_int64 (field "execution_id" entry.values) in
      record {
        id = entry.id;
        event_id = sprint print_bytes (field "event_id" entry.values);
        event_type = sprint print_bytes (field "event_type" entry.values);
        execution_id = execution_id;
        payload = sprint print_bytes (field "payload" entry.values);
        decode_error = decode_error_of error;
      }

  unfoldable pub decode_messages : List Entry → List StreamMessage
  unfolding decode_message
  decode_messages [] = []
  decode_messages (entry ∷ entries) = decode_message entry ∷ decode_messages entries

  -- The entries of several streams, one after another.
  unfoldable pub decode_streams : List (List Entry) → List StreamMessage
  unfolding decode_messages
  decode_streams [] = []
  decode_streams (stream ∷ streams) = decode_messages stream ++ decode_streams streams

-- The texts that fmt.Sprintf prints into an event id.
unfoldable pub print_event_id : EventId → String
print_event_id (ready_id execution) = append "execution-ready-" (format_int execution)
print_event_id (retry_id execution attempt) =
    append "execution-retry-" (append (format_int execution) (append "-" (format_int attempt)))
print_event_id (recovery_id execution at) =
    append "execution-recovery-" (append (format_int execution) (append "-" (format_int at)))

abbrev pub print_event_type : EventType → String
print_event_type execution_ready = "EXECUTION_READY"
print_event_type execution_retry = "EXECUTION_RETRY"
print_event_type execution_recovery = "EXECUTION_RECOVERY"

-- The values of XADD. `encode_payload` is the JSON text of the payload column.
unfoldable pub published_fields : (Payload → String) → OutboxEvent → Fields
published_fields encode_payload event =
    ("event_id", text (print_event_id event.event_id))
    ∷ ("execution_id", int64 (pos event.aggregate_id))
    ∷ ("event_type", text (print_event_type event.event_type))
    ∷ ("payload", text (encode_payload event.payload))
    ∷ []

-- The error of XADD is wrapped; otherwise the answer is the id of the entry.
unfoldable pub publish : (Payload → String) → (Fields → Result String) → OutboxEvent → Result String
unfolding published_fields
publish encode_payload xadd event = elim (xadd (published_fields encode_payload event)) [
  | ok message_id ↦ ok message_id
  | err e ↦ err (wrap "publish Redis Stream message" e)
]

-- `contains` is strings.Contains: a group that exists already is no error.
unfoldable pub ensure_consumer_group : (Error → Bool) → Result (Unit {0}) → Result (Unit {0})
ensure_consumer_group is_busy_group (ok done) = ok tt
ensure_consumer_group is_busy_group (err e) =
    if is_busy_group e then ok tt else err (wrap "create Redis Stream consumer group" e)

-- goredis.Nil is none.
unfoldable pub read_new :
    (String → String) → Result (Option (List (List Entry))) → Result (List StreamMessage)
unfolding decode_streams
read_new print_bytes (ok none) = ok []
read_new print_bytes (ok (some streams)) = ok (decode_streams print_bytes streams)
read_new print_bytes (err e) = err (wrap "read Redis Stream consumer group" e)

-- The messages and the cursor to go on from, also with an error.
unfoldable pub auto_claim :
    (String → String)
    → String
    → Result (Option (List Entry × String))
    → Result (List StreamMessage) × String
unfolding decode_messages
auto_claim print_bytes start (ok none) = (ok [], "0-0")
auto_claim print_bytes start (ok (some (entries, next))) =
    (ok (decode_messages print_bytes entries), next)
auto_claim print_bytes start (err e) = (err (wrap "claim Redis Stream pending messages" e), start)
