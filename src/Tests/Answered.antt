-- ===== src/Tests/Answered.antt =====
-- Refused requests and how they are answered, and a client that retries.
use forms.Prelude.{[], String, ◌≡◌, refl, true, false, none, some, codes, inr}
use forms.Exceptions.{is_ok, ok, err, invalid_api_key, request_body_too_large}
use forms.Models.{Db}
use forms.Security.{authenticate, is_valid_management_key}
use forms.Errors.{answer}
use forms.Errors.Answers.{refused_alike}
use forms.Submit.Forms.{interrupted, Parsers}
use forms.Submit.{
  resolve_endpoint, sweep_cutoff, Request, SubmissionAccepted, submit, accept, read_submission,
}
use forms.Storage.Keys.{find_management_key_by_digest}
use forms.RateLimit.{allowed, strip, is_space}
use forms.Storage.RateLimits.{consume_rate_limit, upsert}
use forms.Ingestion.{
  payload_fingerprint, is_valid_endpoint_id, is_valid_idempotency_key, build_submission, collect,
  validate_field_name, validate_field_value, add_value, field_count,
}
use forms.Storage.Submissions.{
  store_submission, find_by_idempotency_key, add_submission, insert_submission, from_domain,
  insert_delivery, new_delivery,
}
use forms.Storage.Endpoints.{get_endpoint}
use forms.Table.{find}
use forms.Submit.Retries.{IsRetried, StillKnows, submit_retry}
use forms.Tests.Samples.{empty, key}
use forms.Tests.Traffic.{settings, library, request}

abbrev digest : String → String
digest k = k

abbrev unknown : String
unknown = "hym_live_0123456789-0123456789_0123456789abcABCxyzXY"

malformed_refused : authenticate digest (some "guess") empty ≡ err invalid_api_key
unfolding authenticate is_valid_management_key
malformed_refused = refl

unknown_refused : authenticate digest (some unknown) empty ≡ err invalid_api_key
unfolding authenticate is_valid_management_key find_management_key_by_digest
unknown_refused = refl

refused_alike_example :
    (answer invalid_api_key ≡ answer invalid_api_key) × ((answer invalid_api_key).status_code ≡ 401)
refused_alike_example =
    refused_alike digest "guess" unknown empty empty invalid_api_key invalid_api_key
      malformed_refused unknown_refused

-- A body that the limit cuts off.
abbrev cut : Parsers
cut = record {
  form_parser = λ n. interrupted (request_body_too_large 1);
  multi_part_parser = λ n. interrupted (request_body_too_large 1);
}

abbrev too_long : Request
too_long = record request {
  content_type = some (codes "application/x-www-form-urlencoded");
  parsers = cut;
}

within : is_ok (sweep_cutoff settings 5000000) ≡ true
unfolding sweep_cutoff
within = refl

abbrev pub keyed : Request
keyed = record request {
  content_type = some (codes "application/x-www-form-urlencoded");
  idempotency_key = some key;
}

abbrev pub after : Db
after =
    (submit library settings keyed false empty "whd_1" "sub_1" 5000000 5000000 "contact" empty).1

abbrev pub ack : SubmissionAccepted
ack = record {
  submission_id = "sub_1";
  endpoint_id = "contact";
  received_at = 5000000;
  count = 1;
  idempotent_replay = false;
  queued = true;
}

pub acknowledged :
    submit library settings keyed false empty "whd_1" "sub_1" 5000000 5000000 "contact" empty
    ≡ (ok ack, after)
unfolding payload_fingerprint submit allowed consume_rate_limit upsert is_valid_endpoint_id
    get_endpoint find accept read_submission strip is_space is_valid_idempotency_key
    build_submission collect validate_field_name validate_field_value add_value store_submission
    find_by_idempotency_key add_submission insert_submission from_domain insert_delivery
    new_delivery field_count
acknowledged = refl

-- The same minute, with the counters swept and the keys changed since.
abbrev since : Db
since = record after { counters = []; keys = [] }

known : StillKnows "contact" key "sub_1" after since
unfolding resolve_endpoint get_endpoint find_by_idempotency_key
known = record { endpoint = refl; row = refl; owed = refl }

submit_retry_example :
    let (answer, final) =
      submit library settings keyed true since "whd_2" "sub_2" 5000000 9000000 "contact" since in
    IsRetried ack answer × (record final { counters = since.counters } ≡ since)
submit_retry_example =
    submit_retry library settings keyed false empty "whd_1" "sub_1" 5000000 5000000 "contact" empty
      key ack after since keyed.peer none true since "whd_2" "sub_2" 5000000 9000000 refl refl
      acknowledged refl known within (inr refl)
