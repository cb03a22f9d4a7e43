-- ===== src/RateLimit/Buckets/Spellings.antt =====
-- All spellings of one source fall in one bucket: hymical_forms/ratelimit.py.
use forms.Prelude.{
  ℕ, ◌+◌, ◌*◌, ◌/◌, ◌^◌, ◌≡◌, refl, sym, ap, ◌∙◌, false, Option, none, some, List, [], ◌∷◌, ◌++◌,
  arith, ◌==◌, length, filter, All,
}
use forms.RateLimit.{is_space, strip, strip_left, strip_right}
use forms.RateLimit.Buckets.{
  Address, v4, v6, IpAddress, open_bracket, close_bracket, colon, until, colons, or_all, candidate,
  parsed_of, parse_address, bucket_of, bucket_v6, ipv6_bucket_prefix, address_bucket,
}

-- A text of an address: no white space, no bracket, and for an IPv4 address no colon.
abbrev pub IsPlain : List ℕ → Type 0
IsPlain text = All (λ c. is_space c ≡ false) text

abbrev pub Lacks : ℕ → List ℕ → Type 0
Lacks d text = All (λ c. (c == d) ≡ false) text

-- A text that can stand alone, and one that can stand in brackets.
pub record IsBare (text : List ℕ) : Type 0 where
  pub plain : IsPlain text
  pub unopened : Lacks open_bracket text

pub record IsBracketable (text : List ℕ) : Type 0 where
  pub plain : IsPlain text
  pub closed : Lacks close_bracket text

abbrev pub bracketed : List ℕ → List ℕ → List ℕ
bracketed text tail = open_bracket ∷ text ++ close_bracket ∷ tail

strip_right-plain : (text : List ℕ) → IsPlain text → strip_right text ≡ text
unfolding strip_right
strip_right-plain [] h = refl
strip_right-plain (c ∷ []) (here, rest) = rw here refl
strip_right-plain (c ∷ d ∷ text) (here, rest) = rw (strip_right-plain (d ∷ text) rest) refl

strip-plain : (text : List ℕ) → IsPlain text → strip text ≡ text
unfolding strip strip_left
strip-plain [] h = strip_right-plain [] h
strip-plain (c ∷ text) (here, rest) = rw here (strip_right-plain (c ∷ text) (here, rest))

All-append : (P : ℕ → Type 0) (a b : List ℕ) → All P a → All P b → All P (a ++ b)
All-append P [] b h k = k
All-append P (x ∷ a) b (here, rest) k = (here, All-append P a b rest k)

until-append : (d : ℕ) (a b : List ℕ) → Lacks d a → until d (a ++ d ∷ b) ≡ some a
unfolding until
until-append d [] b h = ground arith
until-append d (x ∷ a) b (here, rest) = rw (here, until-append d a b rest) refl

colons-append : (a b : List ℕ) → colons (a ++ b) ≡ colons a + colons b
unfolding colons
colons-append [] b = omega arith
colons-append (x ∷ a) b = ground (arith, colons-append a b)

colons_none : (a : List ℕ) → Lacks colon a → colons a ≡ 0
unfolding colons
colons_none [] h = refl
colons_none (x ∷ a) (here, rest) = rw here (colons_none a rest)

candidate-bare :
    (text : List ℕ)
    → Lacks open_bracket text
    → (colons text == 1) ≡ false
    → candidate text ≡ some text
unfolding candidate
candidate-bare [] h k = refl
candidate-bare (c ∷ rest) (here, others) k = rw (here, k) refl

one_colon :
    (text port : List ℕ) → Lacks colon text → Lacks colon port → colons (text ++ colon ∷ port) ≡ 1
unfolding colons
one_colon text port k l =
    omega (arith, colons-append text (colon ∷ port), colons_none text k, colons_none port l)

candidate-port :
    (text port : List ℕ)
    → Lacks open_bracket text
    → Lacks colon text
    → Lacks colon port
    → candidate (text ++ colon ∷ port) ≡ some text
unfolding candidate colons until
candidate-port [] port h k l =
    let absent : length (filter (λ c. c == colon) port) ≡ 0 = colons_none port l in rw absent refl
candidate-port (c ∷ rest) port (here, others) k l =
    rw (here, one_colon (c ∷ rest) port k l)
      (ap (λ t. some (or_all (c ∷ rest ++ colon ∷ port) t)) (until-append colon (c ∷ rest) port k))

candidate-bracketed :
    (text tail : List ℕ)
    → Lacks close_bracket text
    → candidate (open_bracket ∷ text ++ close_bracket ∷ tail) ≡ some text
unfolding candidate
candidate-bracketed text tail h = until-append close_bracket text tail h

module _ (lib : IpAddress) where
  -- The parse of a text without white space.
  parse_address-plain :
      (text : List ℕ) → IsPlain text → parse_address lib text ≡ parsed_of lib (candidate text)
  unfolding parse_address
  parse_address-plain text h = ap (λ t. parsed_of lib (candidate t)) (strip-plain text h)

  bucket_lem :
      (text inner : List ℕ) (address : Option Address)
      → IsPlain text
      → candidate text ≡ some inner
      → lib.ip_address inner ≡ address
      → address_bucket lib text ≡ bucket_of lib text address
  unfolding address_bucket
  bucket_lem text inner address plain is reads =
      ap (bucket_of lib text) (parse_address-plain text plain ∙ ap (parsed_of lib) is ∙ reads)

  bracketed-bucket :
      (text tail : List ℕ) (address : Option Address)
      → IsBracketable text
      → IsPlain tail
      → lib.ip_address text ≡ address
      → address_bucket lib (bracketed text tail) ≡ bucket_of lib (bracketed text tail) address
  unfolding is_space
  bracketed-bucket text tail address h plain reads =
      bucket_lem (bracketed text tail) text address
        (
          refl,
          All-append (λ c. is_space c ≡ false) text (close_bracket ∷ tail) h.plain (refl, plain),
        )
        (candidate-bracketed text tail h.closed) reads

  -- A source has one budget however its address is written, in texts without white space and
  -- without the marks that they are set in: an IPv4 address falls in one bucket
  -- alone, with the port of a connection, and as an IPv4-mapped IPv6 address in brackets with
  -- anything behind them; and two IPv6 addresses with their first 64 bits in common, neither of
  -- them mapped, fall in one bucket, one of them in brackets and one bare.
  pub address_bucket_shared :
      (text port mapped six other tail : List ℕ) (n m k l : ℕ)
      → IsBare text
      → Lacks colon text
      → IsPlain port
      → Lacks colon port
      → IsBracketable mapped
      → IsBracketable six
      → IsBare other
      → (colons other == 1) ≡ false
      → IsPlain tail
      → lib.ip_address text ≡ some (v4 n)
      → lib.ip_address mapped ≡ some (v6 m)
      → lib.ipv4_mapped m ≡ some n
      → lib.ip_address six ≡ some (v6 k)
      → lib.ipv4_mapped k ≡ none
      → lib.ip_address other ≡ some (v6 l)
      → lib.ipv4_mapped l ≡ none
      → k / 2 ^ 64 ≡ l / 2 ^ 64
      → (address_bucket lib (text ++ colon ∷ port) ≡ address_bucket lib text)
        × (address_bucket lib (bracketed mapped tail) ≡ address_bucket lib text)
        × (address_bucket lib (bracketed six tail) ≡ address_bucket lib other)
  unfolding bucket_of is_space
  address_bucket_shared text port mapped six other tail n m k l bare plain_text p c h6 k6 bare_other
        cs t reads reads_m is_m reads_k is_k reads_l is_l same =
      let alone : address_bucket lib text ≡ lib.str_v4 n =
        bucket_lem text text (some (v4 n)) bare.plain
          (candidate-bare text bare.unopened (rw (colons_none text plain_text) refl)) reads in
      let ported : address_bucket lib (text ++ colon ∷ port) ≡ lib.str_v4 n =
        bucket_lem (text ++ colon ∷ port) text (some (v4 n))
          (All-append (λ x. is_space x ≡ false) text (colon ∷ port) bare.plain (refl, p))
          (candidate-port text port bare.unopened plain_text c) reads in
      let disguised : address_bucket lib (bracketed mapped tail) ≡ lib.str_v4 n =
        bracketed-bucket mapped tail (some (v6 m)) h6 t reads_m ∙ ap (bucket_v6 lib m) is_m in
      let wide : address_bucket lib (bracketed six tail) ≡ bucket_v6 lib k none =
        bracketed-bucket six tail (some (v6 k)) k6 t reads_k ∙ ap (bucket_v6 lib k) is_k in
      let bare_wide : address_bucket lib other ≡ bucket_v6 lib l none =
        bucket_lem other other (some (v6 l)) bare_other.plain
          (candidate-bare other bare_other.unopened cs) reads_l
        ∙ ap (bucket_v6 lib l) is_l in
      let network : bucket_v6 lib k none ≡ bucket_v6 lib l none =
        unfold bucket_v6 in ap (λ q. lib.str_network (q * 2 ^ 64) ipv6_bucket_prefix) same in
      (ported ∙ sym alone, disguised ∙ sym alone, wide ∙ (network ∙ sym bare_wide))
