-- ===== src/Service/Administration.antt =====
-- What administers the service writes endpoints and keys only.
use forms.Prelude.{
  String, ◌≡◌, refl, Bool, true, false, not, Option, none, some, List, is_some, any, str_eq,
  Bool-cases, inl, inr,
}
use forms.Exceptions.{
  Result, ok, err, Exception, refuse, integrity_error, endpoint_already_exists,
  endpoint_id_conflict, endpoint_not_found, invalid_new_endpoint_id, committed, ◌>>=◌,
}
use forms.Models.{Instant, Endpoint, ManagementApiKey, Db}
use forms.Table.{find}
use forms.Security.Generation.{GeneratedKey}
use forms.Security.{require_management_key, authenticate, admit, record_use}
use forms.Ingestion.{is_valid_endpoint_id}
use forms.Storage.Submissions.{same_null}
use forms.Storage.Endpoints as Storage
use forms.Storage.Endpoints.{insert_endpoint, flushed}
use forms.Storage.Keys.{
  create_management_key, revoke_management_key, revoke_loaded, record_management_key_use,
}
use forms.Configuration.{
  CreateEndpointRequest, UpdateEndpointRequest, value_of, new_destination, resolve, existing,
  mutated, or_conflict, create_route, update_route,
}
use forms.CommandLine.{exit_ok, created, create_key, revoke_key}

-- The same database but for its endpoints and keys.
abbrev pub Administered : Db → Db → Type 0
Administered db db' = record db { endpoints = db'.endpoints; keys = db'.keys } ≡ db'

-- A transaction that raises, or commits such a database.
data Harmless {ℓ} {A : Type ℓ} (db : Db) : Result (A × Db) → Type ℓ where
  rolled_back : (e : Exception) → Harmless db (err e)
  wrote :
      (a : A) (endpoints : List Endpoint) (keys : List ManagementApiKey)
      → Harmless db (ok (a, record db { endpoints = endpoints; keys = keys }))

Harmless-Administered {ℓ} :
    {A : Type ℓ} (db : Db) (r : Result (A × Db)) → Harmless db r → Administered db (committed db r)
Harmless-Administered db r (rolled_back e) = refl
Harmless-Administered db r (wrote a endpoints keys) = refl

bind-Harmless {ℓ κ} :
    {A : Type ℓ} {B : Type κ} (db : Db) (m : Result A) (f : A → Result (B × Db))
    → ((a : A) → Harmless db (f a))
    → Harmless db (m >>= f)
bind-Harmless db (ok a) f h = h a
bind-Harmless db (err e) f h = rolled_back e

after-Harmless {ℓ κ} :
    {A : Type ℓ} {B : Type κ} (db : Db) (m : Result (A × Db)) (f : A → B)
    → Harmless db m
    → Harmless db (m >>= λ made. ok (f made.0, made.1))
after-Harmless db m f (rolled_back e) = rolled_back e
after-Harmless db m f (wrote a endpoints keys) = wrote (f a) endpoints keys

or_conflict-Harmless :
    (db : Db) (m : Result (Endpoint × Db)) (secret : Option String)
    → Harmless db m
    → Harmless db (or_conflict m secret)
or_conflict-Harmless db m secret (wrote a endpoints keys) = wrote (mutated a secret) endpoints keys
or_conflict-Harmless db m secret (rolled_back (endpoint_already_exists id)) =
    rolled_back (endpoint_id_conflict id)
or_conflict-Harmless db m secret (rolled_back _) = rolled_back _

create_endpoint-Harmless :
    (endpoint_id name : String) (is_active : Bool) (url secret : Option String) (now : Instant)
    (db : Db)
    → Harmless db (Storage.create_endpoint endpoint_id name is_active url secret now db)
unfolding Storage.create_endpoint insert_endpoint flushed
create_endpoint-Harmless endpoint_id name is_active url secret now db =
    elim (Bool-cases (is_some (find (λ r. r.id) endpoint_id db.endpoints))) [
      | inl taken ↦ rw taken (rolled_back (endpoint_already_exists endpoint_id))
      | inr free ↦ elim (Bool-cases (not (same_null url secret))) [
        | inl half ↦ rw (free, half) (rolled_back (endpoint_already_exists endpoint_id))
        | inr whole ↦ rw (free, whole) (wrote _ _ db.keys)
      ]
    ]

update_endpoint-Harmless :
    (endpoint : Endpoint) (name : String) (is_active : Bool) (url secret : Option String) (db : Db)
    → Harmless db (Storage.update_endpoint endpoint name is_active url secret db)
unfolding Storage.update_endpoint
update_endpoint-Harmless endpoint name is_active url secret db =
    bind-Harmless db _ _ (λ _. wrote _ _ db.keys)

create_management_key-Harmless :
    (key_id name prefix digest : String) (now : Instant) (db : Db)
    → Harmless db (create_management_key key_id name prefix digest now db)
unfolding create_management_key
create_management_key-Harmless key_id name prefix digest now db =
    bind-Harmless db (refuse (is_some (find (λ r. r.id) key_id db.keys)) integrity_error) _ (λ _.
      bind-Harmless db (refuse (any (λ r. str_eq r.key_digest digest) db.keys) integrity_error) _
        (λ _. wrote _ db.endpoints _))

module _ (now : Instant) (db : Db) where
  pub create_route-Administered :
      (validate : String → Option String) (new_secret : String) (payload : CreateEndpointRequest)
      → Administered db (committed db (create_route validate new_secret payload now db))
  unfolding create_route
  create_route-Administered validate new_secret payload =
      Harmless-Administered db (create_route validate new_secret payload now db) (
        bind-Harmless db (refuse (not (is_valid_endpoint_id payload.id)) invalid_new_endpoint_id) _
          (λ _. bind-Harmless db (new_destination validate new_secret payload.webhook_url) _ (λ r.
            or_conflict-Harmless db _ r.generated (
              create_endpoint-Harmless payload.id payload.name payload.is_active payload.webhook_url
                r.webhook_secret now db))))

  pub update_route-Administered :
      (validate : String → Option String) (new_secret endpoint_id : String)
      (payload : UpdateEndpointRequest)
      → Administered db (committed db (update_route validate new_secret endpoint_id payload db))
  unfolding update_route
  update_route-Administered validate new_secret endpoint_id payload =
      Harmless-Administered db (update_route validate new_secret endpoint_id payload db) (
        bind-Harmless db
          (refuse (not (is_valid_endpoint_id endpoint_id)) (endpoint_not_found endpoint_id)) _
          (λ _.
            bind-Harmless db (existing endpoint_id (Storage.get_endpoint endpoint_id db)) _ (λ e.
              bind-Harmless db
                (resolve validate new_secret payload.webhook_url e.webhook_url e.webhook_secret) _
                (λ r.
                  after-Harmless db _ (λ x. mutated x r.generated)
                    (update_endpoint-Harmless e (value_of e.name payload.name)
                      (value_of e.is_active payload.is_active) r.webhook_url r.webhook_secret
                      db)))))

  pub create_key-Administered :
      (generated : GeneratedKey) (name : String)
      → Administered db (committed db (create_key generated name now db))
  unfolding create_key
  create_key-Administered generated name =
      Harmless-Administered db (create_key generated name now db) (
        after-Harmless db _ (λ _. (exit_ok, created generated.id name generated.key))
          (create_management_key-Harmless generated.id name generated.display_prefix
            generated.digest now db))

  revoke_loaded-Administered :
      (key_id : String) (loaded : Option ManagementApiKey)
      → Administered db (revoke_loaded key_id now db loaded).1
  unfolding revoke_loaded
  revoke_loaded-Administered key_id none = refl
  revoke_loaded-Administered key_id (some key) = elim (Bool-cases (is_some key.revoked_at)) [
    | inl already ↦ rw already refl
    | inr active ↦ rw active refl
  ]

  pub revoke_key-Administered : (key_id : String) → Administered db (revoke_key key_id now db).1
  unfolding revoke_key revoke_management_key
  revoke_key-Administered key_id = revoke_loaded-Administered key_id _

  admit-Administered :
      (writes : Bool) (r : Result ManagementApiKey) → Administered db (admit writes now db r).1
  unfolding admit record_use record_management_key_use
  admit-Administered writes (err e) = refl
  admit-Administered true (ok key) = refl
  admit-Administered false (ok key) = refl

  pub require_management_key-Administered :
      (digest_key : String → String) (credentials : Option String) (writes : Bool)
      → Administered db (require_management_key digest_key credentials writes now db).1
  unfolding require_management_key
  require_management_key-Administered digest_key credentials writes =
      admit-Administered writes (authenticate digest_key credentials db)
