-- ===== src/Storage/Keys.antt =====
-- The management keys of hymical_forms/storage.py.
pub mod Revocation
use forms.Prelude.{
  String, Bool, true, not, Option, none, some, ◌∷◌, str_eq, is_some, if◌then◌else◌, any, first,
}
use forms.Exceptions.{Result, ok, integrity_error, refuse, ◌>>=◌, ◌>>◌}
use forms.Models.{Instant, ManagementApiKey, Db}
use forms.Table.{find, update_at}

-- A key that is created has neither been used nor revoked.
unfoldable pub create_management_key :
    (key_id name display_prefix key_digest : String) → Instant → Db → Result (ManagementApiKey × Db)
create_management_key key_id name display_prefix key_digest now db = do
  let key : ManagementApiKey = record {
    id = key_id;
    name = name;
    display_prefix = display_prefix;
    key_digest = key_digest;
    created_at = now;
    revoked_at = none;
    last_used_at = none;
  }
  refuse (is_some (find (λ r. r.id) key_id db.keys)) integrity_error
  refuse (any (λ r. str_eq r.key_digest key_digest) db.keys) integrity_error
  ok (key, record db { keys = key ∷ db.keys })

-- Digests are unique, so there is at most one such row.
unfoldable pub find_management_key_by_digest : String → Db → Option ManagementApiKey
find_management_key_by_digest key_digest db = first (λ r. str_eq r.key_digest key_digest) db.keys

unfoldable pub get_management_key : String → Db → Option ManagementApiKey
get_management_key key_id db = find (λ r. r.id) key_id db.keys

-- The effect of `key.revoked_at = now` on a loaded row.
unfoldable pub revoke_row : Instant → ManagementApiKey → ManagementApiKey
revoke_row now key = record key { revoked_at = some now }

unfoldable pub revoke_loaded :
    String → Instant → Db → Option ManagementApiKey → Option ManagementApiKey × Db
revoke_loaded key_id now db none = (none, db)
revoke_loaded key_id now db (some key) = if is_some key.revoked_at then (some key, db) else (
  some (revoke_row now key),
  record db { keys = update_at (λ r. r.id) key_id (λ r. true) (revoke_row now) db.keys },
)

unfoldable pub revoke_management_key : String → Instant → Db → Option ManagementApiKey × Db
unfolding revoke_loaded
revoke_management_key key_id now db = revoke_loaded key_id now db (find (λ r. r.id) key_id db.keys)

unfoldable pub record_management_key_use : String → Instant → Db → Db
record_management_key_use key_id now db = record db {
  keys =
      update_at (λ r. r.id) key_id (λ r. true)
        (λ (r : ManagementApiKey). record r { last_used_at = some now }) db.keys;
}
