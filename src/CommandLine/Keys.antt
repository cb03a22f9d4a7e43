-- ===== src/CommandLine/Keys.antt =====
-- A key that an operator creates authenticates, until it is revoked: `_create_key` of
-- hymical_forms/cli.py with `require_management_key` of hymical_forms/api/security.py.
use forms.Prelude.{
  String, Bool, true, ◌≡◌, ◌∷◌, refl, sym, some, none, codes, str_eq, eq_refl, is_some, any,
  Bool-cases, inl, inr,
}
use forms.Exceptions.{ok}
use forms.Models.{Instant, Db}
use forms.Table.{find}
use forms.Storage.Keys.{create_management_key, find_management_key_by_digest}
use forms.Security.{
  is_secret, ManagementPrincipal, authenticate, check_record, admit, principal_of,
  require_management_key,
}
use forms.Security.Generation.{GeneratedKey, new_management_key, new_management_key-is_valid}
use forms.CommandLine.{created, create_key, exit_ok}

-- The store with a key that was just created.
abbrev holding : GeneratedKey → (name : String) → Instant → Db → Db
holding generated name now db = record db {
  keys =
      record {
        id = generated.id;
        name = name;
        display_prefix = generated.display_prefix;
        key_digest = generated.digest;
        created_at = now;
        revoked_at = none;
        last_used_at = none;
      }
      ∷ db.keys;
}

abbrev pub principal : GeneratedKey → (name : String) → ManagementPrincipal
principal generated name = record {
  key_id = generated.id;
  name = name;
  display_prefix = generated.display_prefix;
}

holding-authenticates :
    (digest_key : String → String) (secret hex name : String) (writes : Bool) (now later : Instant)
    (db : Db)
    → is_secret (some (codes secret)) ≡ true
    → let generated = new_management_key digest_key secret hex in
      (require_management_key digest_key
        (some generated.key)
        writes
        later
        (holding generated name now db)).0
      ≡ ok (principal generated name)
unfolding require_management_key authenticate check_record find_management_key_by_digest admit
    principal_of new_management_key
holding-authenticates digest_key secret hex name writes now later db shape =
    let generated = new_management_key digest_key secret hex in
    rw (new_management_key-is_valid digest_key secret hex shape, eq_refl generated.digest)
      (rw (eq_refl generated.digest) refl)

-- The key that `create-key` prints authenticates the requests that carry it, as the key that was
-- named, where the random secret has the documented 43 characters of URL-safe base 64; whatever
-- the digest function is, and whichever keys are stored, where the command succeeded.
pub create_key-authenticates :
    (digest_key : String → String) (secret hex name id name' key : String) (writes : Bool)
    (now later : Instant) (db db' : Db)
    → is_secret (some (codes secret)) ≡ true
    → create_key (new_management_key digest_key secret hex) name now db
      ≡ ok ((exit_ok, created id name' key), db')
    → (require_management_key digest_key (some key) writes later db').0
      ≡ ok (principal (new_management_key digest_key secret hex) name)
unfolding create_key create_management_key
create_key-authenticates digest_key secret hex name id name' key writes now later db db' shape
      done =
    let generated = new_management_key digest_key secret hex in
    elim (Bool-cases (is_some (find (λ r. r.id) generated.id db.keys))) [
      | inl taken ↦ cc (rw taken at done)
      | inr fresh ↦ elim (Bool-cases (any (λ r. str_eq r.key_digest generated.digest) db.keys)) [
        | inl known ↦ cc (rw (fresh, known) at done)
        | inr unknown ↦
            let is = rw (fresh, unknown) at done in
            let stored : holding generated name now db ≡ db' = cc in
            let printed : generated.key ≡ key = cc in
            rw (sym stored, sym printed)
              (holding-authenticates digest_key secret hex name writes now later db shape)
      ]
    ]
