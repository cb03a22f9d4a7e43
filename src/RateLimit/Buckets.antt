-- ===== src/RateLimit/Buckets.antt =====
-- What one budget is shared by: `address_bucket`, `_parse_address` and `ip_subject` of
-- hymical_forms/ratelimit.py.
pub mod Spellings
use forms.Prelude.{
  ℕ, zero, suc, ◌*◌, ◌/◌, ◌^◌, Bool, true, false, Option, none, some, List, [], ◌∷◌, ◌==◌,
  if◌then◌else◌, length, filter, String,
}
use forms.RateLimit.{strip}

-- An address of the module `ipaddress`: its integer. A zone identifier of an IPv6 address, which
-- its integer does not carry, is left out.
pub data Address : Type 0 where
  v4 v6 : ℕ → Address

-- `ipaddress.ip_address`, none where it raises; `ipv4_mapped` of an IPv6 address; `str` of an
-- address, and of the network with an integer for its address and a number of prefix bits.
pub record IpAddress : Type 0 where
  pub ip_address : List ℕ → Option Address
  pub ipv4_mapped : ℕ → Option ℕ
  pub str_v4 : ℕ → List ℕ
  pub str_network : ℕ → ℕ → List ℕ

abbrev pub open_bracket : ℕ
open_bracket = 0x5b

abbrev pub close_bracket : ℕ
close_bracket = 0x5d

abbrev pub colon : ℕ
colon = 0x3a

-- What stands before the first occurrence of a character, where there is one.
unfoldable pub until : ℕ → List ℕ → Option (List ℕ)
until stop [] = none
until stop (c ∷ rest) = if c == stop then some [] else longer c (until stop rest)
  where
    longer : ℕ → Option (List ℕ) → Option (List ℕ)
    longer c none = none
    longer c (some text) = some (c ∷ text)

-- `text.count(":")`
unfoldable pub colons : List ℕ → ℕ
colons text = length (filter (λ c. c == colon) text)

abbrev pub or_all : List ℕ → Option (List ℕ) → List ℕ
or_all text none = text
or_all text (some head) = head

-- The candidate that `ip_address` is asked about; none for an unclosed bracket.
unfoldable pub candidate : List ℕ → Option (List ℕ)
unfolding until colons
candidate [] = some []
candidate (c ∷ rest) =
    if c == open_bracket
    then until close_bracket rest
    else if colons (c ∷ rest) == 1
    then some (or_all (c ∷ rest) (until colon (c ∷ rest)))
    else some (c ∷ rest)

abbrev pub parsed_of : IpAddress → Option (List ℕ) → Option Address
parsed_of lib none = none
parsed_of lib (some text) = lib.ip_address text

unfoldable pub parse_address : IpAddress → List ℕ → Option Address
unfolding candidate
parse_address lib value = parsed_of lib (candidate (strip value))

abbrev pub ipv6_bucket_prefix : ℕ
ipv6_bucket_prefix = 64

-- The masked address is the multiple of 2 ** 64 below it.
unfoldable pub bucket_v6 : IpAddress → ℕ → Option ℕ → List ℕ
bucket_v6 lib address (some mapped) = lib.str_v4 mapped
bucket_v6 lib address none = lib.str_network (address / 2 ^ 64 * 2 ^ 64) ipv6_bucket_prefix

unfoldable pub bucket_of : IpAddress → List ℕ → Option Address → List ℕ
unfolding bucket_v6
bucket_of lib text none = strip text
bucket_of lib text (some (v4 address)) = lib.str_v4 address
bucket_of lib text (some (v6 address)) = bucket_v6 lib address (lib.ipv4_mapped address)

unfoldable pub address_bucket : IpAddress → List ℕ → List ℕ
unfolding parse_address bucket_of
address_bucket lib address = bucket_of lib address (parse_address lib address)

-- `sha256` and `hmac` are in hexadecimal, and take their text as UTF-8.
unfoldable pub ip_subject :
    IpAddress
    → (sha256 : List ℕ → String) (hmac : String → List ℕ → String) → List ℕ
    → (secret : Option String) → String
unfolding address_bucket
ip_subject lib sha256 hmac address none = sha256 (address_bucket lib address)
ip_subject lib sha256 hmac address (some secret) = hmac secret (address_bucket lib address)
