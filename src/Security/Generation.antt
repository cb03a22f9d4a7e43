-- ===== src/Security/Generation.antt =====
-- Minting a management key: hymical_forms/apikeys.py.
use forms.Prelude.{
  ℕ, ◌+◌, String, ◌+++◌, List, [], ◌∷◌, ◌++◌, ◌≡◌, refl, ap, ◌∙◌, some, true, arith, codes,
}
use Prim.Native.Char.{code}
use Prim.Native.String.append.{nil, cons}
use forms.Delivery.{take_text}
use forms.Security.{management_key_prefix, after_prefix, is_secret, is_valid_management_key}

-- The length of the prefix, and eight characters of the secret.
abbrev pub display_prefix_length : ℕ
display_prefix_length = 9 + 8

unfoldable pub display_prefix : String → String
unfolding take_text
display_prefix key = take_text display_prefix_length key

pub record GeneratedKey : Type 0 where
  pub id : String
  pub key : String
  pub display_prefix : String
  pub digest : String

-- `secret` is what `secrets.token_urlsafe` draws, `hex` what `uuid.uuid4().hex` does.
unfoldable pub new_management_key :
    (digest_key : String → String) (secret hex : String) → GeneratedKey
unfolding display_prefix
new_management_key digest_key secret hex =
    let key = management_key_prefix +++ secret in
    record {
      id = "mk_" +++ hex;
      key = key;
      display_prefix = display_prefix key;
      digest = digest_key key;
    }

codes-append : (a b : String) → codes (a +++ b) ≡ codes a ++ codes b
codes-append String.[] b =
    let first : codes (String.[] +++ b) ≡ codes b = λ i. codes (nil b i) in first
codes-append (String.◌∷◌ c a) b =
    let first : codes (String.◌∷◌ c a +++ b) ≡ codes (String.◌∷◌ c (a +++ b)) =
      λ i. codes (cons c a b i) in
    first ∙ ap (λ rest. code c ∷ rest) (codes-append a b)

after_prefix_lem : (p s : List ℕ) → after_prefix p (p ++ s) ≡ some s
unfolding after_prefix
after_prefix_lem [] s = refl
after_prefix_lem (c ∷ p) s = ground (arith, after_prefix_lem p s)

-- A key that is minted with a secret of the shape that it documents has the shape of a key.
pub new_management_key-is_valid :
    (digest_key : String → String) (secret hex : String)
    → is_secret (some (codes secret)) ≡ true
    → is_valid_management_key (new_management_key digest_key secret hex).key ≡ true
unfolding is_valid_management_key new_management_key
new_management_key-is_valid digest_key secret hex shape =
    let prefix = codes management_key_prefix in
    ap is_secret (
      ap (after_prefix prefix) (codes-append management_key_prefix secret)
      ∙ after_prefix_lem prefix (codes secret))
    ∙ shape
