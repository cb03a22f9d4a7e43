-- ===== src/Configuration.antt =====
-- hymical_forms/api/endpoints.py: the handlers that create and change an endpoint, after the
-- request has been authenticated and parsed. `validate` stands for `validate_webhook_url` under
-- the active settings: the reason for refusing a URL, or none. `new_secret` is what
-- `new_signing_secret` makes.
pub mod Secrets
pub mod Reads
pub mod Destinations
use forms.Prelude.{
  String, Bool, true, false, not, Option, none, some, str_eq, opt_eq, is_some, if◌then◌else◌,
}
use forms.Exceptions.{
  Result, ok, err, endpoint_already_exists, invalid_new_endpoint_id, endpoint_id_conflict,
  endpoint_not_found, invalid_webhook_url, refuse, ◌>>=◌, ◌>>◌,
}
use forms.Models.{Instant, Endpoint, Db}
use forms.Ingestion.{is_valid_endpoint_id}
use forms.Storage.Endpoints as Storage

pub record CreateEndpointRequest : Type 0 where
  pub id : String
  pub name : String
  pub is_active : Bool
  pub webhook_url : Option String

-- An omitted URL is none, an explicit null is `some none`. For the other two they are the same.
pub record UpdateEndpointRequest : Type 0 where
  pub name : Option String
  pub is_active : Option Bool
  pub webhook_url : Option (Option String)

pub record EndpointResponse : Type 0 where
  pub id : String
  pub name : String
  pub is_active : Bool
  pub created_at : Instant
  pub webhook_url : Option String
  pub webhook_secret : Option String

unfoldable pub mutated : Endpoint → Option String → EndpointResponse
mutated endpoint secret = record {
  id = endpoint.id;
  name = endpoint.name;
  is_active = endpoint.is_active;
  created_at = endpoint.created_at;
  webhook_url = endpoint.webhook_url;
  webhook_secret = secret;
}

abbrev pub value_of {ℓ} : {A : Type ℓ} → A → Option A → A
value_of a none = a
value_of a (some b) = b

-- The destination and secret an endpoint ends up with, and the secret that was made for it.
pub record Resolved : Type 0 where
  pub webhook_url : Option String
  pub webhook_secret : Option String
  pub generated : Option String

abbrev pub accepted : Option String → Resolved → Result Resolved
accepted none resolved = ok resolved
accepted (some reason) resolved = err (invalid_webhook_url reason)

-- A destination that is set or replaced; none removes the webhook.
unfoldable pub new_destination :
    (validate : String → Option String) (new_secret : String) → Option String → Result Resolved
new_destination validate new_secret none =
    ok (record { webhook_url = none; webhook_secret = none; generated = none })
new_destination validate new_secret (some url) = accepted (validate url) (record {
  webhook_url = some url;
  webhook_secret = some new_secret;
  generated = some new_secret;
})

unfoldable pub resolve :
    (validate : String → Option String) (new_secret : String)
    → Option (Option String)
    → (webhook_url webhook_secret : Option String) → Result Resolved
unfolding new_destination
resolve validate new_secret none webhook_url webhook_secret =
    ok (record { webhook_url = webhook_url; webhook_secret = webhook_secret; generated = none })
resolve validate new_secret (some wanted) webhook_url webhook_secret =
    if opt_eq wanted webhook_url
    then ok
        (record { webhook_url = webhook_url; webhook_secret = webhook_secret; generated = none })
    else new_destination validate new_secret wanted

abbrev pub existing : String → Option Endpoint → Result Endpoint
existing endpoint_id none = err (endpoint_not_found endpoint_id)
existing endpoint_id (some endpoint) = ok endpoint

unfoldable pub update_route :
    (validate : String → Option String) (new_secret endpoint_id : String)
    → UpdateEndpointRequest
    → Db
    → Result (EndpointResponse × Db)
unfolding resolve
update_route validate new_secret endpoint_id payload db = do
  refuse (not (is_valid_endpoint_id endpoint_id)) (endpoint_not_found endpoint_id)
  endpoint ← existing endpoint_id (Storage.get_endpoint endpoint_id db)
  r ← resolve validate new_secret payload.webhook_url endpoint.webhook_url endpoint.webhook_secret
  updated ←
      Storage.update_endpoint endpoint (value_of endpoint.name payload.name)
        (value_of endpoint.is_active payload.is_active) r.webhook_url r.webhook_secret db
  ok (mutated updated.0 r.generated, updated.1)

-- The handler of EndpointAlreadyExists; the caller commits what the flush left.
abbrev pub or_conflict : Result (Endpoint × Db) → Option String → Result (EndpointResponse × Db)
or_conflict (ok made) secret = ok (mutated made.0 secret, made.1)
or_conflict (err (endpoint_already_exists id)) secret = err (endpoint_id_conflict id)
or_conflict (err e) secret = err e

unfoldable pub create_route :
    (validate : String → Option String) (new_secret : String)
    → CreateEndpointRequest
    → Instant
    → Db
    → Result (EndpointResponse × Db)
unfolding new_destination
create_route validate new_secret payload now db = do
  refuse (not (is_valid_endpoint_id payload.id)) invalid_new_endpoint_id
  r ← new_destination validate new_secret payload.webhook_url
  or_conflict
      (Storage.create_endpoint payload.id payload.name payload.is_active payload.webhook_url
        r.webhook_secret now db)
      r.generated
