-- ===== src/Tests/Samples.antt =====
-- One form, one submission and its delivery, in the states that it goes through.
use forms.Prelude.{ℕ, zero, suc, ◌*◌, String, true, none, some, [], ◌∷◌}
use forms.Webhooks.{
  pending, processing, failed, succeeded, http_error, DeliveryResult, RetryPolicy, WebhookTarget,
}
use forms.Ingestion.{Submission}
use forms.Models.{Endpoint, SubmissionRow, WebhookDelivery, Db}

abbrev pub form : Endpoint
form = record {
  id = "contact";
  name = "Contact";
  is_active = true;
  created_at = 0;
  webhook_url = some "https://example.com/hook";
  webhook_secret = some "whsec_1";
}

abbrev pub target : WebhookTarget
target = record { url = "https://example.com/hook"; secret = "whsec_1" }

abbrev pub key : String
key = "0123456789abcdef"

abbrev pub posted : Submission
posted = record {
  id = "sub_1";
  endpoint_id = "contact";
  received_at = 1000;
  fields = ("email", "a@example.com" ∷ []) ∷ [];
}

abbrev pub stored : SubmissionRow
stored = record {
  id = "sub_1";
  endpoint_id = "contact";
  received_at = 1000;
  fields = ("email", "a@example.com" ∷ []) ∷ [];
  idempotency_key = some key;
  payload_fingerprint = some "f1";
}

abbrev pub waiting : WebhookDelivery
waiting = record {
  id = "whd_1";
  submission_id = some "sub_1";
  endpoint_id = "contact";
  destination_url = "https://example.com/hook";
  signing_secret = "whsec_1";
  state = pending;
  attempts = 0;
  cycle_attempts = 0;
  next_attempt_at = 1000;
  claim_expires_at = none;
  claim_token = none;
  created_at = 1000;
  completed_at = none;
}

abbrev pub minute : ℕ
minute = 60000000

abbrev pub held : WebhookDelivery
held = record waiting {
  state = processing;
  claim_expires_at = some minute;
  claim_token = some "clm_0";
}

abbrev pub given_up : WebhookDelivery
given_up = record waiting {
  state = failed;
  attempts = 5;
  cycle_attempts = 5;
  completed_at = some 9000;
}

abbrev pub empty : Db
empty = record {
  endpoints = form ∷ [];
  submissions = [];
  deliveries = [];
  attempts = [];
  keys = [];
  counters = [];
}

abbrev pub with_delivery : WebhookDelivery → Db
with_delivery d = record empty { submissions = stored ∷ []; deliveries = d ∷ [] }

abbrev pub policy : RetryPolicy
policy = record { max_attempts = 5; initial = 10 * 1000000; max_wait = 3600 * 1000000 }

abbrev pub success : DeliveryResult
success = record { outcome = succeeded; response_status = some 200; error = none }

abbrev pub unavailable : DeliveryResult
unavailable = record { outcome = http_error; response_status = some 503; error = none }

abbrev pub mint : ℕ → String
mint zero = "clm_0"
mint (suc n) = "clm_1"

abbrev pub mint' : ℕ → String
mint' zero = "clm_2"
mint' (suc n) = "clm_3"
