-- ===== src/Tests/Administration.antt =====
-- Management keys and the configuration of endpoints.
use forms.Prelude.{String, ◌≡◌, refl, true, none, some, [], ◌∷◌}
use forms.Exceptions.{err, invalid_api_key}
use forms.Models.{Endpoint, ManagementApiKey, Db}
use forms.Table.{find}
use forms.Storage.Keys.{
  find_management_key_by_digest, get_management_key, revoke_management_key,
  record_management_key_use,
}
use forms.Storage.Keys.Revocation.{here, next, use_key}
use forms.Security.{require_management_key}
use forms.Security.Revoked.{revoked_forever}
use forms.Configuration.{UpdateEndpointRequest, EndpointResponse}
use forms.Tests.Samples.{form, empty}

abbrev credential : String
credential = "hym_live_AAAAAAAAAAAAAAAAAAAAAAAAAAAAAAAAAAAAAAAAAAA"

-- A digest that is as good as any where nothing is attacked.
abbrev digest : String → String
digest key = key

abbrev operator : ManagementApiKey
operator = record {
  id = "mk_1";
  name = "ops";
  display_prefix = "hym_live_AAAAAAAA";
  key_digest = credential;
  created_at = 0;
  revoked_at = none;
  last_used_at = none;
}

abbrev administered : Db
administered = record empty { keys = operator ∷ [] }

by_digest : find_management_key_by_digest (digest credential) administered ≡ some operator
unfolding find_management_key_by_digest
by_digest = refl

by_id : get_management_key operator.id administered ≡ some operator
unfolding get_management_key find
by_id = refl

abbrev after : Db
after = (revoke_management_key operator.id 500 administered).1

revoked_forever_example :
    require_management_key digest
      (some credential)
      true
      900
      (record_management_key_use "mk_1" 700 after)
    ≡ (err invalid_api_key, record_management_key_use "mk_1" 700 after)
revoked_forever_example =
    revoked_forever digest credential operator 500 900 true administered
      (record_management_key_use "mk_1" 700 after) by_digest by_id
      (next here (use_key after "mk_1" 700))

abbrev moved : UpdateEndpointRequest
moved = record { name = none; is_active = none; webhook_url = some (some "https://example.org/in") }

abbrev answer : EndpointResponse
answer = record {
  id = "contact";
  name = "Contact";
  is_active = true;
  created_at = 0;
  webhook_url = some "https://example.org/in";
  webhook_secret = some "whsec_2";
}

abbrev moved_form : Endpoint
moved_form = record form {
  webhook_url = some "https://example.org/in";
  webhook_secret = some "whsec_2";
}
