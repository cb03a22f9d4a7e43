-- ===== src/RateLimit/Addresses.antt =====
-- Which part of X-Forwarded-For decides: `client_address` of hymical_forms/ratelimit.py.
use forms.Prelude.{
  ℕ, ◌+◌, ◌-◌, ◌<◌, ◌≡◌, refl, sym, ap, ◌∙◌, true, false, Option, some, List, [], ◌∷◌, ◌++◌, arith,
  ltb, leb, length, drop, ◌⊎◌,
}
use forms.Ingestion.{is_empty}
use forms.RateLimit.{
  strip, comma, split, hops_of, head_or, or_empty, from_right, peer_or_unknown, client_address,
}

split-cons : (text : List ℕ) → is_empty (split text) ≡ false
unfolding split
split-cons [] = refl
split-cons (c ∷ rest) = ground (arith, split-cons rest)

split-append : (a b : List ℕ) → split (a ++ comma ∷ b) ≡ split a ++ split b
unfolding split
split-append [] b = refl
split-append (c ∷ a) b = ground (arith, split-append a b, split-cons a)

hops_of-append : (a b : List (List ℕ)) → hops_of (a ++ b) ≡ hops_of a ++ hops_of b
unfolding hops_of
hops_of-append [] b = refl
hops_of-append (e ∷ a) b = ground (arith, hops_of-append a b)

length-append : (a b : List (List ℕ)) → length (a ++ b) ≡ length a + length b
length-append [] b = omega arith
length-append (x ∷ a) b = omega (arith, length-append a b)

drop-append : (a b : List (List ℕ)) → drop (length a) (a ++ b) ≡ b
drop-append [] b = refl
drop-append (x ∷ a) b = drop-append a b

from_right-append :
    (d : List ℕ) (a b : List (List ℕ)) → from_right d (length b) (a ++ b) ≡ head_or d b
unfolding from_right
from_right-append d a b =
    let e : length (a ++ b) - length b ≡ length a = omega (arith, length-append a b) in
    rw (e, drop-append a b) refl

-- A text with an entry is not empty.
hops-is_empty : (b : List ℕ) → 0 < length (hops_of (split b)) → is_empty b ≡ false
unfolding hops_of split strip
hops-is_empty [] h = absurd (omega arith)
hops-is_empty (c ∷ b) h = refl

append-is_empty : (a b : List ℕ) → is_empty (a ++ comma ∷ b) ≡ false
append-is_empty [] b = refl
append-is_empty (c ∷ a) b = refl

-- Both sides of the theorem below: the first of the trusted entries.
trusted_entry :
    (peer : Option (List ℕ)) (text b : List ℕ) (before : List (List ℕ)) (n : ℕ)
    → 0 < n
    → length (hops_of (split b)) ≡ n
    → is_empty text ≡ false
    → hops_of (split text) ≡ before ++ hops_of (split b)
    → client_address peer (some text) n ≡ head_or (peer_or_unknown peer) (hops_of (split b))
unfolding client_address
trusted_entry peer text b before n pos count full parts =
    let long : leb n (length (hops_of (split text))) ≡ true =
      ground (arith, ap length parts, length-append before (hops_of (split b)), count) in
    let pos' : ltb 0 n ≡ true = ground arith in
    let at : from_right (peer_or_unknown peer) n (hops_of (split text))
        ≡ head_or (peer_or_unknown peer) (hops_of (split b)) =
      rw (parts, ← count) (from_right-append (peer_or_unknown peer) before (hops_of (split b))) in
    rw (full, long, pos') at

-- When the last entries of the header, as many as there are trusted hops, were written by the
-- trusted proxies, whatever a client wrote in front of them changes nothing: the address is the
-- same as with those entries alone.
pub client_address_unspoofed :
    (peer : Option (List ℕ)) (written trusted : List ℕ) (n : ℕ)
    → 0 < n
    → length (hops_of (split trusted)) ≡ n
    → client_address peer (some (written ++ comma ∷ trusted)) n
      ≡ client_address peer (some trusted) n
client_address_unspoofed peer a b n pos count =
    trusted_entry peer (a ++ comma ∷ b) b (hops_of (split a)) n pos count (append-is_empty a b)
      (ap hops_of (split-append a b) ∙ hops_of-append (split a) (split b))
    ∙ sym (trusted_entry peer b b [] n pos count (hops-is_empty b (omega arith)) refl)

-- Without a trusted hop, and with fewer entries than trusted hops, the header is not believed: the
-- address is that of the socket peer.
pub client_address_peer :
    (peer : Option (List ℕ)) (forwarded_for : Option (List ℕ)) (n : ℕ)
    → (n ≡ 0) ⊎ (length (hops_of (split (or_empty forwarded_for))) < n)
    → client_address peer forwarded_for n ≡ peer_or_unknown peer
unfolding client_address
client_address_peer peer forwarded_for n h = ground arith
