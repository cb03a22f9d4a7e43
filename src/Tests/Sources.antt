-- ===== src/Tests/Sources.antt =====
-- One source under several spellings.
use forms.Prelude.{
  same_text, ℕ, ◌+◌, ◌^◌, ◌*◌, ◌≡◌, refl, none, some, List, [], ◌∷◌, ◌++◌, codes, leb, ◌==◌, false,
  if◌then◌else◌,
}
use forms.RateLimit.{is_space}
use forms.RateLimit.Buckets.{IpAddress, v4, v6, address_bucket, colon, colons}
use forms.RateLimit.Buckets.Spellings.{
  IsBare, IsBracketable, bracketed, address_bucket_shared, IsPlain,
}

abbrev four : List ℕ
four = codes "1.2.3.4"

abbrev mapped : List ℕ
mapped = codes "::ffff:1.2.3.4"

abbrev six : List ℕ
six = codes "1::2"

abbrev other : List ℕ
other = codes "1:0::3"

abbrev lib : IpAddress
lib = record {
  ip_address = λ text.
      if same_text text four
      then some (v4 0x01020304)
      else if same_text text mapped
      then some (v6 (0xffff * 2 ^ 32 + 0x01020304))
      else if same_text text six
      then some (v6 (2 ^ 112 + 2))
      else if same_text text other
      then some (v6 (2 ^ 112 + 3))
      else none;
  ipv4_mapped = λ address. if leb (2 ^ 64) address then none else some 0x01020304;
  str_v4 = λ address. address ∷ [];
  str_network = λ address bits. address ∷ bits ∷ [];
}

four-IsBare : IsBare four
unfolding is_space
four-IsBare = record {
  plain = (refl, (refl, (refl, (refl, (refl, (refl, (refl, tt)))))));
  unopened = (refl, (refl, (refl, (refl, (refl, (refl, (refl, tt)))))));
}

mapped-IsBracketable : IsBracketable mapped
unfolding is_space
mapped-IsBracketable = record {
  plain = (
    refl,
    (
      refl,
      (
        refl,
        (refl, (refl, (refl, (refl, (refl, (refl, (refl, (refl, (refl, (refl, (refl, tt))))))))))),
      ),
    ),
  );
  closed = (
    refl,
    (
      refl,
      (
        refl,
        (refl, (refl, (refl, (refl, (refl, (refl, (refl, (refl, (refl, (refl, (refl, tt))))))))))),
      ),
    ),
  );
}

six-IsBracketable : IsBracketable six
unfolding is_space
six-IsBracketable = record {
  plain = (refl, (refl, (refl, (refl, tt))));
  closed = (refl, (refl, (refl, (refl, tt))));
}

other-IsBare : IsBare other
unfolding is_space
other-IsBare = record {
  plain = (refl, (refl, (refl, (refl, (refl, (refl, tt))))));
  unopened = (refl, (refl, (refl, (refl, (refl, (refl, tt))))));
}

port-IsPlain : IsPlain (codes "443")
unfolding is_space
port-IsPlain = (refl, (refl, (refl, tt)))

reads_four : lib.ip_address four ≡ some (v4 0x01020304)
unfolding same_text
reads_four = refl

reads_mapped : lib.ip_address mapped ≡ some (v6 (0xffff * 2 ^ 32 + 0x01020304))
unfolding same_text
reads_mapped = refl

reads_six : lib.ip_address six ≡ some (v6 (2 ^ 112 + 2))
unfolding same_text
reads_six = refl

reads_other : lib.ip_address other ≡ some (v6 (2 ^ 112 + 3))
unfolding same_text
reads_other = refl

two_colons : (colons other == 1) ≡ false
unfolding colons
two_colons = refl

address_bucket_shared_example :
    (address_bucket lib (four ++ colon ∷ codes "443") ≡ address_bucket lib four)
    × (address_bucket lib (bracketed mapped []) ≡ address_bucket lib four)
    × (address_bucket lib (bracketed six []) ≡ address_bucket lib other)
address_bucket_shared_example =
    address_bucket_shared lib four (codes "443") mapped six other [] 0x01020304
      (0xffff * 2 ^ 32 + 0x01020304) (2 ^ 112 + 2) (2 ^ 112 + 3) four-IsBare
      (refl, (refl, (refl, (refl, (refl, (refl, (refl, tt))))))) port-IsPlain
      (refl, (refl, (refl, tt))) mapped-IsBracketable six-IsBracketable other-IsBare two_colons tt
      reads_four reads_mapped refl reads_six refl reads_other refl refl
