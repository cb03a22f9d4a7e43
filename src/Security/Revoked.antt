-- ===== src/Security/Revoked.antt =====
-- Who a management request is refused to: `require_management_key` of
-- hymical_forms/api/security.py.
use forms.Prelude.{
  String, ◌≡◌, refl, ◌&&◌, Bool, false, not, Option, none, some, arith, is_some, eq_iff,
  if◌then◌else◌, Option-cases, inl, inr,
}
use forms.Exceptions.{Result, ok, err, invalid_api_key}
use forms.Models.{Instant, ManagementApiKey, Db}
use forms.Storage.Keys.{find_management_key_by_digest, revoke_management_key, get_management_key}
use forms.Storage.Keys.Revocation.{
  has_digest, KeyReach, KeyReach-withdrawn, revoke-withdrawn, first-holds,
}
use forms.Security.{require_management_key, authenticate, check_record, is_valid_management_key}

-- Does a digest name a key that is not revoked?
abbrev pub is_live : Option ManagementApiKey → Bool
is_live none = false
is_live (some key) = not (is_some key.revoked_at)

abbrev pub principal_or : Option ManagementApiKey → Result ManagementApiKey
principal_or none = err invalid_api_key
principal_or (some key) = ok key

-- A well-formed credential is checked against the row of its digest and nothing else, and one
-- that is refused is refused in the same way whatever is wrong with it: malformed, unknown or
-- revoked.
pub authenticate-some :
    (digest_key : String → String) (supplied : String) (db : Db)
    → let row = find_management_key_by_digest (digest_key supplied) db in
      authenticate digest_key (some supplied) db ≡ (
        if is_valid_management_key supplied && is_live row
        then principal_or row
        else err invalid_api_key)
unfolding authenticate check_record find_management_key_by_digest
authenticate-some digest_key supplied db =
    elim (Option-cases (find_management_key_by_digest (digest_key supplied) db)) [
      | inl e ↦ ground (arith, e)
      | inr (key, e) ↦
          let same =
            (eq_iff key.key_digest (digest_key supplied)).0
              (first-holds (has_digest (digest_key supplied)) db.keys e) in
          ground (arith, e, same, eq_iff (digest_key supplied) key.key_digest)
    ]

-- From the moment that a key is revoked, its credential is refused, and the refusal changes
-- nothing, whatever keys are created, used and revoked afterwards.
pub revoked_forever :
    (digest_key : String → String) (supplied : String) (key : ManagementApiKey)
    (now later : Instant) (writes : Bool) (db db' : Db)
    → find_management_key_by_digest (digest_key supplied) db ≡ some key
    → get_management_key key.id db ≡ some key
    → KeyReach (revoke_management_key key.id now db).1 db'
    → require_management_key digest_key (some supplied) writes later db'
      ≡ (err invalid_api_key, db')
unfolding require_management_key get_management_key find_management_key_by_digest
revoked_forever digest_key supplied key now later writes db db' found there r =
    let gone =
      KeyReach-withdrawn (digest_key supplied) r
        (revoke-withdrawn (digest_key supplied) now key db found there) in
    let refused : authenticate digest_key (some supplied) db' ≡ err invalid_api_key =
      elim (Option-cases (find_management_key_by_digest (digest_key supplied) db')) [
        | inl e ↦ cc
        | inr (row, e) ↦ ground (arith, authenticate-some digest_key supplied db', e, gone)
      ] in
    rw refused refl
