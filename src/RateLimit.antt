-- ===== src/RateLimit.antt =====
-- hymical_forms/ratelimit.py: the fixed windows, and the address a request is counted against.
-- A text that the module takes apart is a list of code points.
pub mod Windows
pub mod Addresses
pub mod Buckets
use forms.Prelude.{
  ℕ, zero, suc, ◌+◌, ◌-◌, ◌*◌, ◌/◌, ◌%◌, max, Bool, true, false, not, ◌&&◌, ◌||◌, Option, none,
  some, List, [], ◌∷◌, ltb, leb, ◌==◌, if◌then◌else◌, length, filter, drop,
}
use forms.Models.{Instant, Limiter}
use forms.Ingestion.{is_empty}

pub record RateLimit : Type 0 where
  pub requests : ℕ
  pub window_seconds : ℕ

pub record RateLimitDecision : Type 0 where
  pub limiter : Limiter
  pub limit : RateLimit
  pub used : ℕ
  pub retry_after_seconds : ℕ

unfoldable pub allowed : RateLimitDecision → Bool
allowed decision = leb decision.used decision.limit.requests

abbrev pub second : ℕ
second = 1000000

unfoldable pub window_start : Instant → ℕ → Instant
window_start now window_seconds =
    let elapsed = now / second in (elapsed - elapsed % window_seconds) * second

-- A window that has ended leaves 0 here and a negative number there; both are floored at 1.
unfoldable pub seconds_until_window_ends : Instant → Instant → ℕ → ℕ
seconds_until_window_ends now start window_seconds =
    let remaining = start + window_seconds * second - now in
    max 1 ((remaining + (second - 1)) / second)

-- The characters that `str.strip` removes.
unfoldable pub is_space : ℕ → Bool
is_space c =
    leb 9 c && leb c 13
    || leb 28 c && leb c 32
    || c == 0x85
    || c == 0xa0
    || c == 0x1680
    || leb 0x2000 c && leb c 0x200a
    || c == 0x2028
    || c == 0x2029
    || c == 0x202f
    || c == 0x205f
    || c == 0x3000

unfoldable pub strip_left : List ℕ → List ℕ
strip_left [] = []
strip_left (c ∷ rest) = if is_space c then strip_left rest else c ∷ rest

abbrev keep_right : ℕ → List ℕ → List ℕ
keep_right c [] = if is_space c then [] else c ∷ []
keep_right c (d ∷ rest) = c ∷ d ∷ rest

unfoldable pub strip_right : List ℕ → List ℕ
strip_right [] = []
strip_right (c ∷ rest) = keep_right c (strip_right rest)

unfoldable pub strip : List ℕ → List ℕ
unfolding strip_left strip_right
strip text = strip_right (strip_left text)

abbrev pub comma : ℕ
comma = 0x2c

abbrev extend : ℕ → List (List ℕ) → List (List ℕ)
extend c [] = (c ∷ []) ∷ []
extend c (word ∷ words) = (c ∷ word) ∷ words

-- `text.split(",")`
unfoldable pub split : List ℕ → List (List ℕ)
split [] = [] ∷ []
split (c ∷ rest) = let words = split rest in if c == comma then [] ∷ words else extend c words

-- `[entry.strip() for entry in entries if entry.strip()]`
unfoldable pub hops_of : List (List ℕ) → List (List ℕ)
hops_of [] = []
hops_of (entry ∷ entries) =
    let rest = hops_of entries in if is_empty (strip entry) then rest else strip entry ∷ rest

-- "unknown"
abbrev pub unknown_client : List ℕ
unknown_client = 0x75 ∷ 0x6e ∷ 0x6b ∷ 0x6e ∷ 0x6f ∷ 0x77 ∷ 0x6e ∷ []

-- `peer or UNKNOWN_CLIENT`
unfoldable pub peer_or_unknown : Option (List ℕ) → List ℕ
peer_or_unknown none = unknown_client
peer_or_unknown (some []) = unknown_client
peer_or_unknown (some (c ∷ rest)) = c ∷ rest

abbrev pub head_or : List ℕ → List (List ℕ) → List ℕ
head_or d [] = d
head_or d (x ∷ xs) = x

-- `hops[-trusted_proxy_hops]`, of a list that has so many.
unfoldable pub from_right : List ℕ → ℕ → List (List ℕ) → List ℕ
from_right d n hops = head_or d (drop (length hops - n) hops)

abbrev pub or_empty : Option (List ℕ) → List ℕ
or_empty none = []
or_empty (some text) = text

unfoldable pub client_address : Option (List ℕ) → Option (List ℕ) → ℕ → List ℕ
unfolding peer_or_unknown from_right
client_address peer forwarded_for trusted_proxy_hops =
    let fallback = peer_or_unknown peer in
    let hops = hops_of (split (or_empty forwarded_for)) in
    if ltb 0 trusted_proxy_hops
      && not (is_empty (or_empty forwarded_for))
      && leb trusted_proxy_hops (length hops)
    then from_right fallback trusted_proxy_hops hops
    else fallback
