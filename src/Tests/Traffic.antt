-- ===== src/Tests/Traffic.antt =====
-- The public endpoint's budgets and addresses.
use forms.Prelude.{
  false, none, true, ◌+◌, ◌-◌, String, ◌≡◌, refl, min, some, List, [], ◌∷◌, ◌++◌, arith, length,
}
use forms.Models.{Instant, Limiter, ip, endpoint, Db}
use forms.RateLimit.{
  RateLimit, allowed, second, window_start, seconds_until_window_ends, client_address, hops_of,
  split, strip, is_space, comma,
}
use forms.RateLimit.Addresses.{client_address_unspoofed}
use forms.Storage.RateLimits.{upsert, is_counter, consume_rate_limit}
use forms.Storage.RateLimits.Budgets.{spent}
use forms.Submit.Admissions.{admitted, attempts_on, admitted-eq-min}
use forms.Exceptions.{is_ok}
use forms.Config.{Settings, defaults}
use forms.Submit.Forms.{form, field, failed, multi_part_exception}
use forms.Submit.{
  address_subject, Library, charge_address, consume, resolve_endpoint, Request, submit,
}
use forms.Ingestion.{is_valid_endpoint_id, is_alphanumeric, is_id_character}
use forms.Submit.Refusals.{submit-refused}
use forms.Submit.Charges.{submit-spent}
use forms.Tests.Samples.{empty}

-- Three attempts spent in the first minute by one address.
abbrev pub busy : Db
busy = record empty {
  counters = record { limiter = ip; subject = "192.0.2.1"; window_start = 0; attempts = 3 } ∷ [];
}

abbrev attempts : List (Limiter × String × Instant)
attempts =
    (ip, "192.0.2.1", 0)
    ∷ (endpoint, "192.0.2.2", 1000000)
    ∷ (ip, "192.0.2.1", 2000000)
    ∷ (ip, "192.0.2.1", 61000000)
    ∷ (ip, "192.0.2.1", 3000000)
    ∷ []

-- Five a minute for an address, six for an endpoint.
abbrev limits : Limiter → RateLimit
limits ip = record { requests = 5; window_seconds = 60 }
limits endpoint = record { requests = 6; window_seconds = 60 }

admitted-eq-min_example :
    admitted limits ip "192.0.2.1" 0 attempts busy
    ≡ min (attempts_on limits ip "192.0.2.1" 0 attempts) (5 - spent ip "192.0.2.1" 0 busy.counters)
admitted-eq-min_example = admitted-eq-min limits ip "192.0.2.1" 0 attempts busy

-- "6", written by the client, before "7", written by the one trusted proxy.
one_hop : length (hops_of (split (0x37 ∷ []))) ≡ 1
unfolding hops_of split strip is_space
one_hop = refl

client_address_unspoofed_example :
    client_address (some (0x31 ∷ [])) (some ((0x36 ∷ []) ++ comma ∷ 0x37 ∷ [])) 1
    ≡ client_address (some (0x31 ∷ [])) (some (0x37 ∷ [])) 1
client_address_unspoofed_example =
    client_address_unspoofed (some (0x31 ∷ [])) (0x36 ∷ []) (0x37 ∷ []) 1 (omega arith) one_hop

abbrev pub settings : Settings
settings = record (defaults "sqlite://") { rate_limit_ip_requests = 5 }

-- The digest of every address is one text.
abbrev pub library : Library
library = record {
  ipaddress = record {
    ip_address = λ text. none;
    ipv4_mapped = λ address. none;
    str_v4 = λ address. [];
    str_network = λ address bits. [];
  };
  sha256 = λ text. "192.0.2.1";
  hmac = λ secret text. "192.0.2.1";
  dumps = λ fields. some [];
}

-- A form post without a media type, from the peer "1".
abbrev pub request : Request
request = record {
  peer = some (0x31 ∷ []);
  forwarded_for = none;
  content_type = none;
  idempotency_key = none;
  parsers = record {
    form_parser = λ n. form (("email", field "a@example.com") ∷ []);
    multi_part_parser = λ n. failed (multi_part_exception "no boundary");
  };
}

submit-spent_example :
    spent ip
      (address_subject library request settings)
      (window_start 5000000 60)
      (submit library settings request true busy "whd_1" "sub_1" 5000000 5000000 "contact"
        busy).1.counters
    ≡ spent ip (address_subject library request settings) (window_start 5000000 60) busy.counters
      + 1
submit-spent_example =
    submit-spent library settings request true busy "whd_1" "sub_1" 5000000 5000000 refl
      (omega arith) "contact" busy

-- The endpoint that the path names is not stored, whatever its budget.
nowhere_refused :
    is_ok
      (submit library settings request true busy "whd_1" "sub_1" 5000000 5000000 "Nowhere" busy).0
    ≡ false
unfolding submit charge_address consume consume_rate_limit upsert is_counter allowed
    resolve_endpoint is_valid_endpoint_id window_start is_alphanumeric is_id_character
    client_address forms.RateLimit.Buckets.ip_subject
nowhere_refused = refl

submit-refused_example :
    let (answer, db') =
      submit library settings request true busy "whd_1" "sub_1" 5000000 5000000 "Nowhere" busy in
    record db' { counters = busy.counters } ≡ busy
submit-refused_example =
    submit-refused library settings request true busy "whd_1" "sub_1" 5000000 5000000 "Nowhere" busy
      nowhere_refused
