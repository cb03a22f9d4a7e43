-- ===== src/Configuration/Secrets.antt =====
-- The signing secrets of endpoints: hymical_forms/api/endpoints.py.
use forms.Prelude.{
  String, ◌≡◌, ◌&&◌, Bool, true, false, not, Option, none, some, str_eq, opt_eq, is_some,
  if◌then◌else◌,
}
use forms.Models.{Endpoint, Db}
use forms.Storage.Endpoints.{get_endpoint}
use forms.Storage.Endpoints as Storage
use forms.Storage.Submissions.{same_null}
use forms.Configuration.{UpdateEndpointRequest, EndpointResponse, value_of}

-- Does the request ask for a destination other than the one that is stored?
abbrev pub redirects : Option (Option String) → Option String → Bool
redirects none url = false
redirects (some wanted) url = not (opt_eq wanted url)

-- What a change that raised nothing has left of an endpoint.
pub record IsUpdated (new_secret endpoint_id : String) (payload : UpdateEndpointRequest)
    (endpoint : Endpoint) (db : Db) (response : EndpointResponse) (db' : Db) : Type 0 where
  pub row : Endpoint
  pub stored :
      (j : String)
      → get_endpoint j db' ≡ (if str_eq endpoint_id j then some row else get_endpoint j db)
  pub destination : row.webhook_url ≡ value_of endpoint.webhook_url payload.webhook_url
  pub secret : row.webhook_secret ≡ (
      if redirects payload.webhook_url endpoint.webhook_url
      then response.webhook_secret
      else endpoint.webhook_secret)
  pub shown : response.webhook_secret ≡ (
      if redirects payload.webhook_url endpoint.webhook_url && is_some row.webhook_url
      then some new_secret
      else none)
  pub paired : same_null row.webhook_url row.webhook_secret ≡ true
