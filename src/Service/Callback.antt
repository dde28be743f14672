-- ===== src/Service/Callback.antt =====
-- internal/pkg/callback/client.go, over net/url, net and net/http.
pub mod Safety
pub mod Execute
use chrono_flow.Common.{
  if◌then◌else◌, any, String, Bool, false, not, ◌&&◌, ◌||◌, Option, none, some, List, [], ◌∷◌,
  str_eq,
}
use chrono_flow.Effect.{message, Result, ok, err}

pub record ParsedUrl : Type 0 where
  pub scheme : String
  pub hostname : String
  pub has_user : Bool

-- The methods of net.IP that are asked.
pub record Address : Type 0 where
  pub is_loopback : Bool
  pub is_private : Bool
  pub is_link_local_unicast : Bool
  pub is_link_local_multicast : Bool
  pub is_unspecified : Bool
  pub is_multicast : Bool

-- url.Parse, net.ParseIP, strings.EqualFold and strings.ToLower after strings.TrimSpace.
pub record Net : Type 0 where
  pub parse_url : String → Option ParsedUrl
  pub parse_ip : String → Option Address
  pub equal_fold : String → String → Bool
  pub lower_trimmed : String → String

unfoldable pub is_private_address : Address → Bool
is_private_address a =
    a.is_loopback || a.is_private || a.is_link_local_unicast || a.is_link_local_multicast
    || a.is_unspecified || a.is_multicast

abbrev pub one_of : String → List String → Bool
one_of s texts = any (str_eq s) texts

module _ (net : Net) where
  -- `address != nil && isPrivateAddress(address)`
  unfoldable pub is_private_literal : String → Bool
  is_private_literal hostname = elim (net.parse_ip hostname) [
    | none ↦ false
    | some address ↦ is_private_address address
  ]

  unfoldable pub validate_parsed : Bool → ParsedUrl → Result (Unit {0})
  validate_parsed allow_private parsed =
      if not (str_eq parsed.scheme "http") && not (str_eq parsed.scheme "https")
      then err (message "callback URL scheme must be http or https")
      else if str_eq parsed.hostname ""
      then err (message "callback URL host is required")
      else if parsed.has_user
      then err (message "callback URL must not include user credentials")
      else if not allow_private && is_private_literal parsed.hostname
      then err (message "callback URL must not target a private or loopback address")
      else if not allow_private && net.equal_fold parsed.hostname "localhost"
      then err (message "callback URL must not target localhost")
      else ok tt

  unfoldable pub validate_url : String → Bool → Result (Unit {0})
  validate_url raw_url allow_private = elim (net.parse_url raw_url) [
    | none ↦ err (message "invalid callback URL")
    | some parsed ↦ validate_parsed allow_private parsed
  ]

  unfoldable pub is_reserved_header : String → Bool
  is_reserved_header name = one_of (net.lower_trimmed name) (
      "host" ∷ "content-length" ∷ "connection" ∷ "transfer-encoding" ∷ "idempotency-key"
      ∷ "x-chronoflow-execution-id" ∷ [])

-- The address that DialContext connects to: the first of those that the name resolves to, if
-- none is refused.
unfoldable pub dial_address : Bool → List Address → Result Address
dial_address allow_private [] = err (message "callback hostname has no usable addresses")
dial_address allow_private (a ∷ rest) =
    if any (λ b. not allow_private && is_private_address b) (a ∷ rest)
    then err (message "callback hostname resolves to a disallowed private address")
    else ok a
