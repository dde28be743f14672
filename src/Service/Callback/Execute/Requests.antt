-- ===== src/Service/Callback/Execute/Requests.antt =====
-- The headers of a callback, whatever the timer's own headers are.
use Prim.Native.String.{◌++◌ as append}
use text.Mathlib.TextLemmas.{append_cancel_left}
use mathlib.Core.Option.{some_inj}
use text.Mathlib.TextPositions.{eq_refl}
use chrono_flow.Common.{
  if◌then◌else◌, Bool-cases, pos_part, ℤ, ℕ, ◌^◌, ◌<◌, String, ◌≡◌, refl, sym, ap, ◌∙◌, ◌≢◌, inl,
  inr, true, Option, some, [], ◌∷◌, arith, str_eq, eq_iff,
}
use chrono_flow.Common.Decimal.{format_int, parse_int, NumError}
use chrono_flow.Service.Callback.{is_reserved_header, Net}
use chrono_flow.Service.Callback.Execute.{
  Headers, get_header, set_header, set_headers, first_headers, callback_headers, Http,
}
use chrono_flow.Common.Decimal.RoundTrip.{parse_int-format_int}

get_header-set_header :
    (key j value : String) (headers : Headers)
    → get_header j (set_header key value headers)
      ≡ (if str_eq key j then some value else get_header j headers)
unfolding get_header set_header
get_header-set_header key j value [] = refl
get_header-set_header key j value ((k, v) ∷ headers) =
    ground
      (arith, eq_iff key j, eq_iff k key, eq_iff k j, get_header-set_header key j value headers)

get_header-set_self :
    (key value : String) (headers : Headers)
    → get_header key (set_header key value headers) ≡ some value
get_header-set_self key value headers = rw (get_header-set_header, eq_refl) refl

get_header-set_other :
    (key j value : String) (headers : Headers)
    → key ≢ j
    → get_header j (set_header key value headers) ≡ get_header j headers
get_header-set_other key j value headers h = elim (Bool-cases (str_eq key j)) [
  | inl t ↦ absurd (h ((eq_iff key j).0 t))
  | inr t ↦ rw (get_header-set_header, t) refl
]

get_header-set_same :
    (key j value : String) (headers others : Headers)
    → get_header j headers ≡ get_header j others
    → get_header j (set_header key value headers) ≡ get_header j (set_header key value others)
get_header-set_same key j value headers others e =
    get_header-set_header key j value headers
    ∙ rw e refl
    ∙ sym (get_header-set_header key j value others)

-- What is used of textproto: the two headers of an execution are told apart, and a name with the
-- canonical form of a reserved one is reserved itself.
pub record IsCanonical (net : Net) (http : Http) : Type 0 where
  pub apart : http.canonical "Idempotency-Key" ≢ http.canonical "X-ChronoFlow-Execution-ID"
  pub reserved :
      (name key : String)
      → is_reserved_header net name ≡ true
      → http.canonical key ≡ http.canonical name
      → is_reserved_header net key ≡ true

module _ (net : Net) (http : Http) (laws : IsCanonical net http) where
  get_header-set_headers :
      (name : String) (headers snapshot : Headers)
      → is_reserved_header net name ≡ true
      → get_header (http.canonical name) (set_headers net http headers snapshot)
        ≡ get_header (http.canonical name) headers
  unfolding set_headers
  get_header-set_headers name headers [] h = refl
  get_header-set_headers name headers ((key, value) ∷ more) h =
      elim (Bool-cases (is_reserved_header net key)) [
        | inl t ↦ rw t (get_header-set_headers name headers more h)
        | inr t ↦ rw t (
            get_header-set_headers name (set_header (http.canonical key) value headers) more h
            ∙ get_header-set_other (http.canonical key) (http.canonical name) value headers
                (λ e. let r = laws.reserved name key h e in cc))
      ]

  idempotency_key :
      (snapshot : Headers) (execution_id : ℕ)
      → get_header
          (http.canonical "Idempotency-Key")
          (callback_headers net http snapshot execution_id)
        ≡ some (append "chronoflow-execution-" (format_int execution_id))
  unfolding callback_headers
  idempotency_key snapshot id =
      get_header-set_other _ _ _ _ (λ e. laws.apart (sym e)) ∙ get_header-set_self _ _ _

  -- Whatever headers the timer has, in any order: the request names its execution in the two headers
  -- made for that, and under a reserved name it has what it would have if the timer had no headers.
  pub callback_headers_reserved :
      (snapshot : Headers) (execution_id : ℕ) (name : String)
      → is_reserved_header net name ≡ true
      → (get_header
            (http.canonical "Idempotency-Key")
            (callback_headers net http snapshot execution_id)
          ≡ some (append "chronoflow-execution-" (format_int execution_id)))
        × (get_header
              (http.canonical "X-ChronoFlow-Execution-ID")
              (callback_headers net http snapshot execution_id)
            ≡ some (format_int execution_id))
        × (get_header (http.canonical name) (callback_headers net http snapshot execution_id)
            ≡ get_header (http.canonical name) (callback_headers net http [] execution_id))
  unfolding callback_headers set_headers
  callback_headers_reserved snapshot id name h = (
    idempotency_key snapshot id,
    get_header-set_self _ _ _,
    get_header-set_same _ _ _ _ _ (
        get_header-set_same _ _ _ _ _
          (get_header-set_headers name (first_headers net http) snapshot h)),
  )

  -- Two executions never share an idempotency key, whatever timers they are of.
  pub idempotency_key_apart :
      (snapshot other : Headers) (execution_id other_id : ℕ)
      → execution_id < 2 ^ 63
      → other_id < 2 ^ 63
      → get_header
          (http.canonical "Idempotency-Key")
          (callback_headers net http snapshot execution_id)
        ≡ get_header (http.canonical "Idempotency-Key") (callback_headers net http other other_id)
      → execution_id ≡ other_id
  idempotency_key_apart snapshot other id id' h h' e =
      let keys = sym (idempotency_key snapshot id) ∙ e ∙ idempotency_key other id' in
      let prints =
        append_cancel_left "chronoflow-execution-" (format_int id) (format_int id')
          (some_inj.0 keys) in
      let numbers =
        sym (parse_int-format_int id h) ∙ ap parse_int prints ∙ parse_int-format_int id' h' in
      ap (λ (r : ℤ × Option NumError). pos_part r.0) numbers
