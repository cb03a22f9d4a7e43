-- ===== src/Security.antt =====
-- hymical_forms/apikeys.py and hymical_forms/api/security.py: the syntax of a management key and
-- the authentication of a management request. `digest_key` is SHA-256 in hex, a parameter.
pub mod Revoked
pub mod Generation
use forms.Prelude.{
  ℕ, String, Bool, true, false, not, ◌&&◌, ◌||◌, Option, none, some, List, [], ◌∷◌, leb, ◌==◌,
  str_eq, codes, is_some, if◌then◌else◌, length, all,
}
use forms.Exceptions.{
  Result, ok, err, authentication_required, invalid_api_key, refuse, ◌>>=◌, ◌>>◌,
}
use forms.Models.{Instant, ManagementApiKey, Db}
use forms.Storage.Keys.{find_management_key_by_digest, record_management_key_use}

abbrev pub management_key_prefix : String
management_key_prefix = "hym_live_"

abbrev pub management_key_secret_length : ℕ
management_key_secret_length = 43

-- [A-Za-z0-9_-]
unfoldable pub is_secret_character : ℕ → Bool
is_secret_character c =
    leb b'A' c && leb c b'Z'
    || leb b'a' c && leb c b'z'
    || leb b'0' c && leb c b'9'
    || c == b'_'
    || c == b'-'

-- What follows a prefix, where the text starts with it.
unfoldable pub after_prefix : List ℕ → List ℕ → Option (List ℕ)
after_prefix [] text = some text
after_prefix (p ∷ ps) [] = none
after_prefix (p ∷ ps) (c ∷ cs) = let rest = after_prefix ps cs in if p == c then rest else none

-- [A-Za-z0-9_-]{43}, the whole text
unfoldable pub is_secret : Option (List ℕ) → Bool
unfolding is_secret_character
is_secret none = false
is_secret (some secret) =
    length secret == management_key_secret_length && all is_secret_character secret

unfoldable pub is_valid_management_key : String → Bool
unfolding is_secret after_prefix
is_valid_management_key key = is_secret (after_prefix (codes management_key_prefix) (codes key))

-- The non-secret identity of a key.
pub record ManagementPrincipal : Type 0 where
  pub key_id : String
  pub name : String
  pub display_prefix : String

unfoldable pub principal_of : ManagementApiKey → ManagementPrincipal
principal_of key = record { key_id = key.id; name = key.name; display_prefix = key.display_prefix }

-- The checks on the row that a digest found.
unfoldable pub check_record : String → Option ManagementApiKey → Result ManagementApiKey
check_record digest none = err invalid_api_key
check_record digest (some key) = do
  refuse (not (str_eq digest key.key_digest)) invalid_api_key
  refuse (is_some key.revoked_at) invalid_api_key
  ok key

unfoldable pub authenticate :
    (digest_key : String → String) (credentials : Option String) → Db → Result ManagementApiKey
unfolding check_record
authenticate digest_key none db = err authentication_required
authenticate digest_key (some supplied) db = do
  refuse (not (is_valid_management_key supplied)) invalid_api_key
  check_record (digest_key supplied) (find_management_key_by_digest (digest_key supplied) db)

-- `_record_use`: does the database take the write? A failure of it is rolled back and swallowed.
unfoldable pub record_use : (writes : Bool) → String → Instant → Db → Db
record_use true key_id now db = record_management_key_use key_id now db
record_use false key_id now db = db

unfoldable pub admit :
    (writes : Bool) → Instant → Db → Result ManagementApiKey → Result ManagementPrincipal × Db
unfolding record_use
admit writes now db (err e) = (err e, db)
admit writes now db (ok key) = (ok (principal_of key), record_use writes key.id now db)

unfoldable pub require_management_key :
    (digest_key : String → String) (credentials : Option String) (writes : Bool)
    → Instant
    → Db
    → Result ManagementPrincipal × Db
unfolding authenticate admit
require_management_key digest_key credentials writes now db =
    admit writes now db (authenticate digest_key credentials db)
