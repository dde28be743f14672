-- ===== src/Service/Callback/Safety.antt =====
-- Which callbacks internal/pkg/callback/client.go lets through.
use chrono_flow.Common.{
  Option-cases, any, String, ◌≡◌, refl, ◌↔◌, inl, inr, true, false, ◌||◌, some, List, [], ◌∷◌,
  arith, str_eq,
}
use chrono_flow.Effect.{Error, Result, ok, err}
use chrono_flow.Service.Callback.{
  is_private_address, is_private_literal, validate_parsed, validate_url, dial_address, ParsedUrl,
  Address, Net,
}

-- What a URL must be when private addresses are not allowed.
pub record IsPublic (net : Net) (url : ParsedUrl) : Type 0 where
  pub scheme : (str_eq url.scheme "http" || str_eq url.scheme "https") ≡ true
  pub has_host : str_eq url.hostname "" ≡ false
  pub anonymous : url.has_user ≡ false
  pub no_private_literal :
      (address : Address)
      → net.parse_ip url.hostname ≡ some address
      → is_private_address address ≡ false
  pub no_localhost : net.equal_fold url.hostname "localhost" ≡ false

module _ (net : Net) where
  literal :
      (hostname : String)
      → is_private_literal net hostname ≡ false
      → (address : Address) → net.parse_ip hostname ≡ some address
      → is_private_address address ≡ false
  unfolding is_private_literal
  literal hostname h address e = rw (e, is_private_literal) at h

  no_literal :
      (hostname : String)
      → ((address : Address)
          → net.parse_ip hostname ≡ some address
          → is_private_address address ≡ false)
      → is_private_literal net hostname ≡ false
  unfolding is_private_literal
  no_literal hostname k = elim (Option-cases (net.parse_ip hostname)) [
    | inl e ↦ rw (e, is_private_literal) refl
    | inr (a, e) ↦ rw (e, is_private_literal) (k a e)
  ]

  accepted : (url : ParsedUrl) → validate_parsed net false url ≡ ok tt → IsPublic net url
  unfolding validate_parsed
  accepted url h = record {
    scheme = ground arith;
    has_host = ground arith;
    anonymous = ground arith;
    no_private_literal = literal url.hostname (ground arith);
    no_localhost = ground arith;
  }

  accepts : (url : ParsedUrl) → IsPublic net url → validate_parsed net false url ≡ ok tt
  unfolding validate_parsed
  accepts url p = let l = no_literal url.hostname p.no_private_literal in ground arith

  -- When private addresses are not allowed, a callback URL is accepted exactly if it parses, and is of
  -- http or https, has a host and no credentials, and its host is neither localhost nor the literal of
  -- a loopback, private, link-local, unspecified or multicast address.
  pub validate_url_iff :
      (raw_url : String)
      → (validate_url net raw_url false ≡ ok tt)
        ↔ ((url : ParsedUrl) × (net.parse_url raw_url ≡ some url) × IsPublic net url)
  unfolding validate_url
  validate_url_iff raw_url = (to, from)
    where
      to :
          validate_url net raw_url false ≡ ok tt
          → (url : ParsedUrl) × (net.parse_url raw_url ≡ some url) × IsPublic net url
      to h = elim (Option-cases (net.parse_url raw_url)) [
        | inl e ↦ absurd (refused (rw (e, validate_url) at h))
        | inr (url, e) ↦ (url, e, accepted url (rw (e, validate_url) at h))
      ]
        where
          refused : {x : Error} → Path (Result (Unit {0})) (err x) (ok tt) → ⊥
          refused h = cc

      from :
          ((url : ParsedUrl) × (net.parse_url raw_url ≡ some url) × IsPublic net url)
          → validate_url net raw_url false ≡ ok tt
      from (url, e, p) = rw (e, validate_url) (accepts url p)

-- When private addresses are not allowed, a connection is made to a resolved address only if none of
-- the addresses that the host name resolves to is private.
pub dial_address-public :
    (addresses : List Address) {a : Address}
    → dial_address false addresses ≡ ok a
    → (any is_private_address addresses ≡ false) × (is_private_address a ≡ false)
unfolding dial_address
dial_address-public [] h = ground arith
dial_address-public (b ∷ bs) {a} h = ground arith
