-- ===== src/Tests/Hooks.antt =====
-- An endpoint is created with a webhook.
use forms.Prelude.{
  same_text, String, ◌≡◌, refl, true, false, none, some, [], ◌∷◌, codes, All, if◌then◌else◌,
}
use forms.Exceptions.{committed}
use forms.Models.{Endpoint, Db}
use forms.Webhooks.Destinations.{
  UrlLibrary, HostAddress, validate_webhook_url, IsExternal, is_internal_host, is_internal_address,
  strip_dots, ends_with,
}
use forms.Configuration.{CreateEndpointRequest, create_route}
use forms.Configuration.Destinations.{here, next, creating, ConfigReach-IsExternal}
use forms.Ingestion.{is_valid_endpoint_id}
use forms.Storage.Endpoints.{create_endpoint, insert_endpoint}
use forms.Table.{find}
use forms.Tests.Samples.{empty}

abbrev nothing : Db
nothing = record empty { endpoints = [] }

abbrev loopback : HostAddress
loopback = record {
  is_loopback = true;
  is_private = true;
  is_link_local = false;
  is_multicast = false;
  is_reserved = false;
  is_unspecified = false;
}

abbrev lib : UrlLibrary
lib = record {
  urlsplit =
      λ url. some (record { scheme = codes "https"; host = some (codes "hooks.example.com") });
  idna = λ host. true;
  lower = λ text. text;
  ip_address = λ name. if same_text name (codes "127.0.0.1") then some (loopback, none) else none;
}

abbrev wanted : CreateEndpointRequest
wanted = record {
  id = "contact";
  name = "Contact";
  is_active = true;
  webhook_url = some "https://hooks.example.com/in";
}

abbrev configured_once : Db
configured_once =
    committed nothing (create_route (validate_webhook_url lib false) "whsec_1" wanted 10 nothing)

local : is_internal_host lib (codes "api.localhost..") ≡ true
unfolding is_internal_host strip_dots ends_with same_text
local = refl

numeric : is_internal_host lib (codes "127.0.0.1.") ≡ true
unfolding is_internal_host strip_dots ends_with same_text is_internal_address
numeric = refl

ConfigReach-IsExternal_example :
    All
      (λ (e : Endpoint). (url : String) → e.webhook_url ≡ some url → IsExternal lib url)
      configured_once.endpoints
ConfigReach-IsExternal_example =
    ConfigReach-IsExternal lib nothing configured_once refl
      (next here (creating nothing "whsec_1" wanted 10))

stored_one :
    configured_once.endpoints
    ≡ record {
      id = "contact";
      name = "Contact";
      is_active = true;
      created_at = 10;
      webhook_url = some "https://hooks.example.com/in";
      webhook_secret = some "whsec_1";
    }
      ∷ []
unfolding create_route is_valid_endpoint_id validate_webhook_url same_text create_endpoint
    insert_endpoint find
stored_one = refl
