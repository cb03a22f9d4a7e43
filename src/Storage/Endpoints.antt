-- ===== src/Storage/Endpoints.antt =====
-- The endpoints of hymical_forms/storage.py.
use forms.Prelude.{String, Bool, true, not, Option, ◌∷◌, is_some}
use forms.Exceptions.{Result, ok, err, integrity_error, endpoint_already_exists, refuse, ◌>>◌}
use forms.Models.{Instant, Endpoint, Db}
use forms.Table.{find, update_at}
use forms.Storage.Submissions.{same_null}

-- INSERT of an endpoint, under the constraints of its table.
unfoldable pub insert_endpoint : Endpoint → Db → Result Db
insert_endpoint row db = do
  refuse (is_some (find (λ r. r.id) row.id db.endpoints)) integrity_error
  refuse (not (same_null row.webhook_url row.webhook_secret)) integrity_error
  ok (record db { endpoints = row ∷ db.endpoints })

-- The flush: any IntegrityError is reported as the identifier being taken.
unfoldable pub flushed : Endpoint → Result Db → Result (Endpoint × Db)
flushed endpoint (ok db') = ok (endpoint, db')
flushed endpoint (err integrity_error) = err (endpoint_already_exists endpoint.id)
flushed endpoint (err e) = err e

-- `now` is the default of the creation time.
unfoldable pub create_endpoint :
    (endpoint_id name : String) (is_active : Bool) (webhook_url webhook_secret : Option String)
    → Instant
    → Db
    → Result (Endpoint × Db)
unfolding flushed
create_endpoint endpoint_id name is_active webhook_url webhook_secret now db =
    let endpoint : Endpoint = record {
      id = endpoint_id;
      name = name;
      is_active = is_active;
      created_at = now;
      webhook_url = webhook_url;
      webhook_secret = webhook_secret;
    } in
    flushed endpoint (insert_endpoint endpoint db)

unfoldable pub get_endpoint : String → Db → Option Endpoint
get_endpoint endpoint_id db = find (λ r. r.id) endpoint_id db.endpoints

-- The values that an update writes.
unfoldable pub configured :
    String → Bool → (webhook_url webhook_secret : Option String) → Endpoint → Endpoint
configured name is_active webhook_url webhook_secret row = record row {
  name = name;
  is_active = is_active;
  webhook_url = webhook_url;
  webhook_secret = webhook_secret;
}

unfoldable pub update_endpoint :
    Endpoint
    → String
    → Bool
    → (webhook_url webhook_secret : Option String) → Db
    → Result (Endpoint × Db)
update_endpoint endpoint name is_active webhook_url webhook_secret db = do
  refuse (not (same_null webhook_url webhook_secret)) integrity_error
  let write = configured name is_active webhook_url webhook_secret
  ok (
    write endpoint,
    record db { endpoints = update_at (λ r. r.id) endpoint.id (λ r. true) write db.endpoints },
  )
