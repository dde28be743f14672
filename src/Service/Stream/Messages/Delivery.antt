-- ===== src/Service/Stream/Messages/Delivery.antt =====
-- The way of an event from the dispatcher through Redis to the worker.
use chrono_flow.Common.{ℤ, pos, ◌^◌, ◌<◌, String, ◌≡◌, refl}
use chrono_flow.Common.Decimal.RoundTrip.{parse_int-format_int}
use chrono_flow.Model.Outbox.{Payload, OutboxEvent}
use chrono_flow.Service.Stream.Messages.{
  Fields, field, print_int, decode_message, print_event_id, print_event_type, published_fields,
  int64, text,
}

-- What go-redis and Redis do with the values of an entry between XADD and a read: a text stays what
-- it is, and an integer comes back as its decimal print.
pub record IsStore (stored : Fields → Fields) : Type 0 where
  pub text_kept :
      (key : String) (s : String) (fields : Fields)
      → field key fields ≡ text s
      → field key (stored fields) ≡ text s
  pub int64_printed :
      (key : String) (n : ℤ) (fields : Fields)
      → field key fields ≡ int64 n
      → field key (stored fields) ≡ text (print_int n)

-- An entry that Redis keeps of a published event, with any id and any JSON of its payload, is
-- decoded without an error to the event's own id, type, execution and payload, as long as the id of
-- the execution is an int64, and Redis keeps texts and the prints of integers.
pub decode_message-published :
    (stored : Fields → Fields) (laws : IsStore stored) (print_bytes : String → String)
    (encode_payload : Payload → String) (message_id : String) (event : OutboxEvent)
    → event.aggregate_id < 2 ^ 63
    → decode_message print_bytes
        (record { id = message_id; values = stored (published_fields encode_payload event) })
      ≡ record {
        id = message_id;
        event_id = print_event_id event.event_id;
        event_type = print_event_type event.event_type;
        execution_id = pos event.aggregate_id;
        payload = encode_payload event.payload;
        decode_error = "";
      }
unfolding decode_message published_fields
decode_message-published stored laws print_bytes encode_payload message_id event h =
    let fields = published_fields encode_payload event in
    rw
      (
        laws.text_kept "event_id" (print_event_id event.event_id) fields refl,
        laws.text_kept "event_type" (print_event_type event.event_type) fields refl,
        laws.text_kept "payload" (encode_payload event.payload) fields refl,
        laws.int64_printed "execution_id" (pos event.aggregate_id) fields refl,
        parse_int-format_int event.aggregate_id h,
      )
      refl
