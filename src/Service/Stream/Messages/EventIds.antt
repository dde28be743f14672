-- ===== src/Service/Stream/Messages/EventIds.antt =====
-- The texts of event ids.
use Prim.Native.String.{◌++◌ as append}
use Prim.Native.String.append as append_laws
use mathlib.Core.Bool.{true, true≢false}
use chrono_flow.Common.{◌<◌, ◌^◌, String, ◌≡◌, refl, ◌∙◌, sym, ap, str_eq}
use chrono_flow.Common.Decimal.Dashes.{
  has_dash, before_dash, after_dash, before_dash-append, after_dash-append, pair_text,
  format_int-injective, pair_text-injective,
}
use chrono_flow.Common.Decimal.{format_int}
use chrono_flow.Model.Outbox.{EventId, ready_id, retry_id, recovery_id}
use chrono_flow.Service.Stream.Messages.{print_event_id}

-- Between the first and the second dash.
abbrev kind_of : String → String
kind_of s = before_dash (after_dash s)

abbrev rest_of : String → String
rest_of s = after_dash (after_dash s)

-- The numbers of the id are int64s.
abbrev pub IsPrintable : EventId → Type 0
IsPrintable (ready_id e) = e < 2 ^ 63
IsPrintable (retry_id e a) = (e < 2 ^ 63) × (a < 2 ^ 63)
IsPrintable (recovery_id e t) = (e < 2 ^ 63) × (t < 2 ^ 63)

kind_of-append :
    (p s : String)
    → has_dash p ≡ true
    → has_dash (after_dash p) ≡ true
    → kind_of (append p s) ≡ kind_of p
kind_of-append p s h k =
    ap before_dash (after_dash-append p s h) ∙ before_dash-append (after_dash p) s k

rest_of-append :
    (p s : String)
    → has_dash p ≡ true
    → has_dash (after_dash p) ≡ true
    → rest_of p ≡ ""
    → rest_of (append p s) ≡ s
rest_of-append p s h k e =
    ap after_dash (after_dash-append p s h)
    ∙ after_dash-append (after_dash p) s k
    ∙ ap (λ r. append r s) e
    ∙ append_laws.nil s

abbrev kind : EventId → String
kind (ready_id e) = "ready"
kind (retry_id e a) = "retry"
kind (recovery_id e t) = "recovery"

abbrev numbers : EventId → String
numbers (ready_id e) = format_int e
numbers (retry_id e a) = pair_text e a
numbers (recovery_id e t) = pair_text e t

kind_of-print_event_id : (x : EventId) → kind_of (print_event_id x) ≡ kind x
unfolding print_event_id before_dash after_dash
kind_of-print_event_id (ready_id e) =
    kind_of-append "execution-ready-" (numbers (ready_id e)) refl refl
kind_of-print_event_id (retry_id e a) =
    kind_of-append "execution-retry-" (numbers (retry_id e a)) refl refl
kind_of-print_event_id (recovery_id e t) =
    kind_of-append "execution-recovery-" (numbers (recovery_id e t)) refl refl

rest_of-print_event_id : (x : EventId) → rest_of (print_event_id x) ≡ numbers x
unfolding print_event_id before_dash after_dash
rest_of-print_event_id (ready_id e) = rest_of-append "execution-ready-" _ refl refl refl
rest_of-print_event_id (retry_id e a) = rest_of-append "execution-retry-" _ refl refl refl
rest_of-print_event_id (recovery_id e t) = rest_of-append "execution-recovery-" _ refl refl refl

-- The same kind and the same numbers.
same_parts :
    (x y : EventId)
    → IsPrintable x
    → IsPrintable y
    → str_eq (kind x) (kind x) ≡ str_eq (kind x) (kind y)
    → numbers x ≡ numbers y
    → x ≡ y
same_parts (ready_id e) (ready_id f) h k q n = ap ready_id (format_int-injective e f h k n)
same_parts (retry_id e a) (retry_id f b) (h, i) (k, l) q n =
    let (m, o) = pair_text-injective e a f b h i k l n in rw (m, o) refl
same_parts (recovery_id e a) (recovery_id f b) (h, i) (k, l) q n =
    let (m, o) = pair_text-injective e a f b h i k l n in rw (m, o) refl
same_parts (ready_id e) (retry_id f b) h k q n = absurd (true≢false q)
same_parts (ready_id e) (recovery_id f b) h k q n = absurd (true≢false q)
same_parts (retry_id e a) (ready_id f) h k q n = absurd (true≢false q)
same_parts (retry_id e a) (recovery_id f b) h k q n = absurd (true≢false q)
same_parts (recovery_id e a) (ready_id f) h k q n = absurd (true≢false q)
same_parts (recovery_id e a) (retry_id f b) h k q n = absurd (true≢false q)

-- Two event ids that are printed alike are the same, as long as their numbers are int64s: the unique
-- index on the texts is one on the ids.
pub print_event_id-IsPrintable :
    (x y : EventId) → IsPrintable x → IsPrintable y → print_event_id x ≡ print_event_id y → x ≡ y
print_event_id-IsPrintable x y h k q =
    same_parts x y h k
      (ap (str_eq (kind x))
        (sym (kind_of-print_event_id x) ∙ ap kind_of q ∙ kind_of-print_event_id y))
      (sym (rest_of-print_event_id x) ∙ ap rest_of q ∙ rest_of-print_event_id y)
