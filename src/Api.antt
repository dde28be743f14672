-- ===== src/Api.antt =====
-- internal/middleware: the API key (api_security.go) and the origins (cors.go).
pub mod Access
use Prim.Native.String.{len, slice}
use text.Mathlib.Text.{starts_with}
use chrono_flow.Common.{
  if◌then◌else◌, any, ltb_ℤ, ℤ, pos, String, Bool, not, ◌&&◌, Option, none, some, List, str_eq,
}

-- What the middleware reads of a request; a missing header is the empty string.
pub record Request : Type 0 where
  pub path : String
  pub method : String
  pub has_body : Bool
  pub x_api_key : String
  pub authorization : String
  pub origin : String

-- strings.TrimSpace and strings.ToLower.
pub record Text : Type 0 where
  pub trim_space : String → String
  pub to_lower : String → String

-- c.Next() or the response that ends the request.
pub data Verdict : Type 0 where
  next : Verdict
  unauthorized : Verdict
  no_content : Verdict

unfoldable pub is_api_path : String → Bool
is_api_path path = starts_with path "/api/"

module _ (text : Text) where
  -- The token after "Bearer ", in any case.
  unfoldable pub bearer_token : String → String
  bearer_token authorization =
      let trimmed = text.trim_space authorization in
      if starts_with (text.to_lower trimmed) "bearer "
      then text.trim_space (slice trimmed 7 (len trimmed))
      else ""

  unfoldable pub provided_key : Request → String
  provided_key request =
      let key = text.trim_space request.x_api_key in
      if str_eq key "" then bearer_token request.authorization else key

  -- The verdict, and the limit that is put on the body.
  unfoldable pub api_security : String → ℤ → Request → Verdict × Option ℤ
  api_security api_key max_request_bytes request =
      if not (is_api_path request.path) then (next, none) else (
        (if str_eq api_key ""
            then next
            else if not (str_eq (provided_key request) api_key)
            then unauthorized
            else next),
        (if ltb_ℤ (pos 0) max_request_bytes && request.has_body
            then some max_request_bytes
            else none),
      )

-- The verdict, and the origin that is allowed.
unfoldable pub cors : List String → Request → Verdict × Option String
cors allowed_origins request = (
  (if str_eq request.method "OPTIONS" then no_content else next),
  (if not (str_eq request.origin "") && any (λ o. str_eq o request.origin) allowed_origins
      then some request.origin
      else none),
)
