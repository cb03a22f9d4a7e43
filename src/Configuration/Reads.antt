-- ===== src/Configuration/Reads.antt =====
-- The handlers of hymical_forms/api/endpoints.py that read endpoints. `before` is the database's
-- order on texts.
use forms.Prelude.{ℕ, String, Bool, not, Option, List, map}
use forms.Exceptions.{Result, ok, endpoint_not_found, refuse, ◌>>=◌, ◌>>◌}
use forms.Models.{Instant, Endpoint, Db}
use forms.Ingestion.{is_valid_endpoint_id}
use forms.Pages.{next_cursor}
use forms.Storage.Endpoints.{get_endpoint}
use forms.Storage.Listings.{list_endpoints}
use forms.Management.{or_invalid_cursor, found}

pub record EndpointView : Type 0 where
  pub id : String
  pub name : String
  pub is_active : Bool
  pub created_at : Instant
  pub webhook_url : Option String

unfoldable pub endpoint_view : Endpoint → EndpointView
endpoint_view endpoint = record {
  id = endpoint.id;
  name = endpoint.name;
  is_active = endpoint.is_active;
  created_at = endpoint.created_at;
  webhook_url = endpoint.webhook_url;
}

unfoldable pub list_endpoints_route :
    (before : String → String → Bool) (limit : ℕ) (cursor : Option String)
    → Db
    → Result (List EndpointView × Option String)
unfolding endpoint_view
list_endpoints_route before limit cursor db = do
  page ← or_invalid_cursor (list_endpoints before limit cursor db)
  ok (map endpoint_view page, next_cursor (map (λ (e : Endpoint). e.id) page) limit)

unfoldable pub get_endpoint_route : String → Db → Result EndpointView
unfolding endpoint_view
get_endpoint_route endpoint_id db = do
  refuse (not (is_valid_endpoint_id endpoint_id)) (endpoint_not_found endpoint_id)
  endpoint ← found (endpoint_not_found endpoint_id) (get_endpoint endpoint_id db)
  ok (endpoint_view endpoint)
