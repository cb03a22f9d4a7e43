-- ===== src/Webhooks/Destinations.antt =====
-- Which destinations are accepted: `validate_webhook_url` and `_is_internal_host` of
-- hymical_forms/webhooks.py. A text that the module takes apart is a list of code points.
use forms.Prelude.{
  same_text, ℕ, String, Bool, true, false, not, ◌&&◌, ◌||◌, Option, none, some, List, [], ◌∷◌, ltb,
  leb, ◌==◌, codes, if◌then◌else◌, length, any, ◌≡◌, refl, ◌≤◌, ◌<◌, arith, Bool-cases, inl, inr,
}

-- What `urlsplit` finds: the scheme, and the host name if there is one.
pub record Parts : Type 0 where
  pub scheme : List ℕ
  pub host : Option (List ℕ)

-- The properties of an address that the module reads.
pub record HostAddress : Type 0 where
  pub is_loopback : Bool
  pub is_private : Bool
  pub is_link_local : Bool
  pub is_multicast : Bool
  pub is_reserved : Bool
  pub is_unspecified : Bool

-- `urlsplit` with the reading of the host name and the port, none where one of them raises; does
-- `encode("idna")` return; `str.lower`; `ip_address`, none where it raises, with the
-- `ipv4_mapped` of an IPv6 address that has one.
pub record UrlLibrary : Type 0 where
  pub urlsplit : List ℕ → Option Parts
  pub idna : List ℕ → Bool
  pub lower : List ℕ → List ℕ
  pub ip_address : List ℕ → Option (HostAddress × Option HostAddress)

abbrev pub webhook_url_max_length : ℕ
webhook_url_max_length = 2048

-- [\x00-\x20\x7f-\x9f]
unfoldable pub is_unsafe : ℕ → Bool
is_unsafe c = leb c 0x20 || leb 0x7f c && leb c 0x9f

abbrev pub is_allowed_scheme : List ℕ → Bool
is_allowed_scheme scheme = same_text scheme (codes "http") || same_text scheme (codes "https")

unfoldable pub is_internal_address : HostAddress → Bool
is_internal_address address =
    address.is_loopback || address.is_private || address.is_link_local || address.is_multicast
    || address.is_reserved || address.is_unspecified

abbrev pub dot : ℕ
dot = 0x2e

-- `text.rstrip(".")`
unfoldable pub strip_dots : List ℕ → List ℕ
strip_dots [] = []
strip_dots (c ∷ rest) = keep c (strip_dots rest)
  where
    keep : ℕ → List ℕ → List ℕ
    keep c [] = if c == dot then [] else c ∷ []
    keep c (d ∷ others) = c ∷ d ∷ others

-- `text.endswith(suffix)`, of a suffix that is not empty
unfoldable pub ends_with : List ℕ → List ℕ → Bool
ends_with suffix [] = false
ends_with suffix (c ∷ rest) = same_text (c ∷ rest) suffix || ends_with suffix rest

-- The address that is judged: the IPv4 address under a mapped one.
abbrev pub judged : Option (HostAddress × Option HostAddress) → Bool
judged none = false
judged (some (address, none)) = is_internal_address address
judged (some (address, some mapped)) = is_internal_address mapped

unfoldable pub is_internal_host : UrlLibrary → List ℕ → Bool
unfolding is_internal_address strip_dots ends_with
is_internal_host lib host =
    let name = lib.lower (strip_dots host) in
    same_text name (codes "localhost")
    || ends_with (codes ".localhost") name
    || judged (lib.ip_address name)

abbrev pub or_no_text : Option (List ℕ) → List ℕ
or_no_text none = []
or_no_text (some text) = text

-- The checks on what `urlsplit` found, with the reason for the refusal.
unfoldable pub check_parts :
    UrlLibrary → (allow_private_targets : Bool) → Option Parts → Option String
check_parts lib allow_private_targets none = some "must be a well-formed URL"
check_parts lib allow_private_targets (some parts) =
    let host = or_no_text parts.host in
    if not (is_allowed_scheme parts.scheme)
    then some "must use the http or https scheme"
    else if length host == 0
    then some "must include a host"
    else if not (lib.idna host)
    then some "must have a valid host name"
    else if not allow_private_targets && is_internal_host lib host
    then some "must not address a loopback, private, link-local or otherwise internal host"
    else none

-- The reason for refusing a destination, or none.
unfoldable pub validate_webhook_url :
    UrlLibrary → (allow_private_targets : Bool) → (url : String) → Option String
unfolding is_unsafe check_parts is_internal_host
validate_webhook_url lib allow_private_targets url =
    if ltb webhook_url_max_length (length (codes url))
    then some "must be at most 2048 characters"
    else if any is_unsafe (codes url)
    then some "must not contain spaces or control characters"
    else check_parts lib allow_private_targets (lib.urlsplit (codes url))

-- What an accepted destination is, where private targets are not allowed.
pub record IsExternal (lib : UrlLibrary) (url : String) : Type 0 where
  pub parts : Parts
  pub found : lib.urlsplit (codes url) ≡ some parts
  pub short : length (codes url) ≤ 2048
  pub safe : any is_unsafe (codes url) ≡ false
  pub scheme : is_allowed_scheme parts.scheme ≡ true
  pub host : 0 < length (or_no_text parts.host)
  pub external : is_internal_host lib (or_no_text parts.host) ≡ false

checked :
    (lib : UrlLibrary) (split : Option Parts)
    → check_parts lib false split ≡ none
    → (parts : Parts) × (split ≡ some parts)
      × (is_allowed_scheme parts.scheme ≡ true)
      × (0 < length (or_no_text parts.host))
      × (is_internal_host lib (or_no_text parts.host) ≡ false)
unfolding check_parts
checked lib none h = cc
checked lib (some parts) h = (parts, refl, ground (arith, h), ground (arith, h), ground (arith, h))

pub validate_webhook_url-IsExternal :
    (lib : UrlLibrary) (url : String)
    → validate_webhook_url lib false url ≡ none
    → IsExternal lib url
unfolding validate_webhook_url
validate_webhook_url-IsExternal lib url h =
    elim (Bool-cases (ltb webhook_url_max_length (length (codes url)))) [
      | inl long ↦ cc (rw long at h)
      | inr short ↦ elim (Bool-cases (any is_unsafe (codes url))) [
        | inl bad ↦ cc (rw (short, bad) at h)
        | inr safe ↦
            let c = checked lib (lib.urlsplit (codes url)) (rw (short, safe) at h) in
            record {
              parts = c.0;
              found = c.1;
              short = ground (arith, short);
              safe = safe;
              scheme = c.2;
              host = c.3;
              external = c.4;
            }
      ]
    ]
