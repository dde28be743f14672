-- ===== src/Service/Callback/Execute/Responses.antt =====
-- When a callback counts as a success, and how much of its response is kept.
use chrono_flow.Common.{
  ltb, lt→ltb, Bool-cases, Bytes, length, take, length-take, take_all, pos_part, wrap64,
  wrap64_small, ℕ, zero, suc, ◌+◌, ◌^◌, ◌≤◌, ◌<◌, ◌≡◌, refl, sym, ap, ◌∙◌, ◌↔◌, inl, inr, Bool,
  true, Option, none, some, [], ◌∷◌, arith,
}
use chrono_flow.Service.Callback.Execute.{
  limited, judged, read_error, after_reading, answered, callback_request, sent, validated, execute,
  HttpResponse, Http,
}
use chrono_flow.Model.Execution.{CallbackSnapshot}
use chrono_flow.Service.Callback.{validate_url, Net}
use chrono_flow.Effect.{Error, Result, ok, err}

-- A response that ends within the limit and has a status of success.
pub record IsSuccess (max_response_body : ℕ) (response : HttpResponse) : Type 0 where
  pub whole : response.broken ≡ none
  pub within : length response.body ≤ max_response_body
  pub from : 200 ≤ response.status_code
  pub below : response.status_code < 300

pos_part-limit : (n : ℕ) → n + 1 < 2 ^ 63 → pos_part (wrap64 (n + 1)) ≡ n + 1
pos_part-limit n h = rw (wrap64_small (n + 1) h) refl

length-judged : (max code : ℕ) (body : Bytes) → length (judged max code body).response_body ≤ max
unfolding judged
length-judged max code body = elim (Bool-cases (ltb max (length body))) [
  | inl t ↦ rw t (length-take max body)
  | inr t ↦ rw t (ground arith)
]

length-after_reading :
    (max : ℕ) (response : HttpResponse) (e : Option Error)
    → length (after_reading max response e).response_body ≤ max
length-after_reading max response none =
    length-judged max response.status_code (limited max response.body)
length-after_reading max response (some e) = omega arith

judged-succeeds :
    (max code : ℕ) (body : Bytes)
    → (judged max code body).error ≡ none
    → (length body ≤ max)
      × (200 ≤ code)
      × (code < 300)
      × ((judged max code body).response_body ≡ body)
unfolding judged
judged-succeeds max code body h = ground arith

take_short : (n : ℕ) (xs : Bytes) → length (take (suc n) xs) ≤ n → length xs ≤ n
take_short n [] h = omega arith
take_short zero (x ∷ xs) h = absurd (omega arith)
take_short (suc n) (x ∷ xs) h = omega (arith, take_short n xs)

module _ (max : ℕ) (fits : max + 1 < 2 ^ 63) where
  reads : pos_part (wrap64 (max + 1)) ≡ suc max
  reads = pos_part-limit max fits ∙ omega arith

  limited-within : (body : Bytes) → length (limited max body) ≤ max → length body ≤ max
  limited-within body h = take_short max body (rw reads at h)

  limited_whole : (body : Bytes) → length body ≤ max → limited max body ≡ body
  limited_whole body h = rw reads (take_all (suc max) body (omega arith))

  read_error-within :
      (response : HttpResponse)
      → length response.body ≤ max
      → read_error max response ≡ response.broken
  read_error-within response h =
      let t : ltb (length response.body) (pos_part (wrap64 (max + 1))) ≡ true =
        rw reads (lt→ltb (length response.body) (suc max) (omega arith)) in
      rw t refl

  judged_whole :
      (response : HttpResponse)
      → response.broken ≡ none
      → length response.body ≤ max
      → answered max response ≡ judged max response.status_code response.body
  unfolding answered
  judged_whole response whole h =
      ap (after_reading max response) (read_error-within response h ∙ whole)
      ∙ ap (judged max response.status_code) (limited_whole response.body h)

  after_reading-succeeds :
      (response : HttpResponse) (e : Option Error)
      → read_error max response ≡ e
      → (after_reading max response e).error ≡ none
      → IsSuccess max response
  after_reading-succeeds response (some x) r h = cc
  after_reading-succeeds response none r h =
      let (within, from, below, _) =
        judged-succeeds max response.status_code (limited max response.body) h in
      let short = limited-within response.body within in
      record {
        whole = sym (read_error-within response short) ∙ r;
        within = short;
        from = from;
        below = below;
      }

  answered-succeeds :
      (response : HttpResponse) → (answered max response).error ≡ none → IsSuccess max response
  unfolding answered
  answered-succeeds response h = after_reading-succeeds response (read_error max response) refl h

  succeeds-answered :
      (response : HttpResponse)
      → IsSuccess max response
      → answered max response ≡ record {
        response_code = response.status_code;
        response_body = response.body;
        error = none;
      }
  succeeds-answered response s =
      judged_whole response s.whole s.within
      ∙ judged_lem response.status_code response.body s.within s.from s.below
    where
      judged_lem :
          (code : ℕ) (body : Bytes)
          → length body ≤ max
          → 200 ≤ code
          → code < 300
          → judged max code body
            ≡ record { response_code = code; response_body = body; error = none }
      judged_lem code body a b c = unfold judged in ground arith

module _ (net : Net) (http : Http) (max_response_body : ℕ) (allow_private : Bool)
    (snapshot : CallbackSnapshot) (execution_id : ℕ) where
  length-sent :
      (r : Result HttpResponse)
      → length (sent net http max_response_body allow_private r).response_body ≤ max_response_body
  unfolding answered
  length-sent (ok response) = length-after_reading max_response_body response _
  length-sent (err e) = omega arith

  length-validated :
      (r : Result (Unit {0}))
      → length
          (validated net http max_response_body allow_private snapshot execution_id r).response_body
        ≤ max_response_body
  length-validated (err e) = omega arith
  length-validated (ok done) = elim (Bool-cases (http.accepts snapshot.method snapshot.url)) [
    | inl t ↦ rw t (length-sent _)
    | inr t ↦ rw t (omega arith)
  ]

  -- A response comes that is a success.
  abbrev pub IsAnswered : Type 0
  IsAnswered =
      (response : HttpResponse) × (http.send (callback_request net http snapshot execution_id)
        ≡ ok response)
      × IsSuccess max_response_body response

  module _ (fits : max_response_body + 1 < 2 ^ 63) where
    sent-succeeds :
        (r : Result HttpResponse)
        → http.send (callback_request net http snapshot execution_id) ≡ r
        → (sent net http max_response_body allow_private r).error ≡ none
        → IsAnswered
    sent-succeeds (err e) answer h = cc
    sent-succeeds (ok response) answer h =
        (response, answer, answered-succeeds max_response_body fits response h)

    validated-succeeds :
        (r : Result (Unit {0}))
        → validate_url net snapshot.url allow_private ≡ r
        → (validated net http max_response_body allow_private snapshot execution_id r).error ≡ none
        → (validate_url net snapshot.url allow_private ≡ ok tt)
          × (http.accepts snapshot.method snapshot.url ≡ true)
          × IsAnswered
    validated-succeeds (err e) v h = cc
    validated-succeeds (ok u) v h = elim (Bool-cases (http.accepts snapshot.method snapshot.url)) [
      | inl t ↦ (
        v,
        t,
        sent-succeeds (http.send (callback_request net http snapshot execution_id)) refl
            (rw t at h),
      )
      | inr t ↦ let bad = rw t at h in cc
    ]

    -- At most the configured number of bytes of a response is kept. A callback succeeds exactly when
    -- its URL is allowed, the request can be made, and a response comes that ends within that number
    -- and has a status from 200 to 299. The number plus one must be an int64.
    pub execute_lem :
        (length
            (execute net http max_response_body allow_private snapshot execution_id).response_body
          ≤ max_response_body)
        × (((execute net http max_response_body allow_private snapshot execution_id).error ≡ none)
            ↔ ((validate_url net snapshot.url allow_private ≡ ok tt)
                × (http.accepts snapshot.method snapshot.url ≡ true)
                × IsAnswered))
    unfolding execute
    execute_lem = (
      length-validated (validate_url net snapshot.url allow_private),
      (
        validated-succeeds (validate_url net snapshot.url allow_private) refl,
        λ (allowed, made, (response, answer, s)).
            rw (allowed, made, answer, succeeds-answered max_response_body fits response s) refl,
      ),
    )
