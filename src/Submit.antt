-- ===== src/Submit.antt =====
-- hymical_forms/api/submissions.py: the handler of a public submission, with its limiters. What
-- the source takes from elsewhere is an argument: `Request` holds the parts of the request that
-- the handler reads, with the parsers of Starlette for its body, and `Library` what it calls.
pub mod Forms
pub mod Charging
pub mod Readings
pub mod Acceptances
pub mod Durability
pub mod Admissions
pub mod Retries
pub mod Charges
pub mod Refusals
use forms.Prelude.{
  ℕ, ◌+◌, ◌-◌, ◌*◌, max, String, Bool, true, false, not, ◌&&◌, ◌||◌, Option, none, some, List, [],
  ◌∷◌, ltb, leb, ◌==◌, codes, str_eq, if◌then◌else◌,
}
use forms.Exceptions.{
  Exception, Result, ok, err, invalid_endpoint_id, endpoint_not_found, rate_limit_exceeded,
  endpoint_inactive, unsupported_media_type, invalid_idempotency_key, idempotency_conflict,
  idempotency_key_reused, refuse, committed, ◌>>=◌, ◌>>◌,
}
use forms.Models.{Instant, earlier, Fields, Endpoint, Limiter, ip, endpoint, Db}
use forms.Webhooks.{WebhookTarget}
use forms.Ingestion.{
  is_valid_endpoint_id, is_valid_idempotency_key, payload_fingerprint, Submission, field_count,
  build_submission,
}
use forms.Config.{Settings, ip_rate_limit, endpoint_rate_limit}
use forms.RateLimit.Buckets.{IpAddress, ip_subject}
use forms.Submit.Forms.{media_type, is_supported, Parsers, parse_form}
use forms.RateLimit.{
  RateLimit, RateLimitDecision, allowed, window_start, seconds_until_window_ends, second,
  client_address, strip,
}
use forms.Storage.RateLimits.{consume_rate_limit, delete_expired_rate_limit_counters}
use forms.Storage.Submissions.{StoredSubmission, store_submission}
use forms.Storage.Endpoints.{get_endpoint}

-- The libraries that the handler calls: ipaddress, SHA-256 and HMAC-SHA-256 of a text in UTF-8, in
-- hexadecimal, and `json.dumps` of pairs of a name and its values.
pub record Library : Type 0 where
  pub ipaddress : IpAddress
  pub sha256 : List ℕ → String
  pub hmac : String → List ℕ → String
  pub dumps : Fields → Option (List ℕ)

-- Header values are code points up to 255; the lines of the forwarding header are joined.
pub record Request : Type 0 where
  pub peer : Option (List ℕ)
  pub forwarded_for : Option (List ℕ)
  pub content_type : Option (List ℕ)
  pub idempotency_key : Option String
  pub parsers : Parsers

pub record SubmissionAccepted : Type 0 where
  pub submission_id : String
  pub endpoint_id : String
  pub received_at : Instant
  pub count : ℕ
  pub idempotent_replay : Bool
  pub queued : Bool

unfoldable pub checked_key : Option String → Result (Option String)
checked_key none = ok none
checked_key (some key) = do
  refuse (not (is_valid_idempotency_key key)) invalid_idempotency_key
  ok (some key)

-- A computation that may raise after it has committed.
abbrev pub and_then {ℓ κ} :
    {A : Type ℓ} {B : Type κ} → Result A × Db → (Db → Result B × Db) → Result B × Db
and_then (ok a, db) f = f db
and_then (err e, db) f = (err e, db)

-- The text of a limiter, `str(decision.limiter)`.
unfoldable pub limiter_name : Limiter → String
limiter_name ip = "ip"
limiter_name endpoint = "endpoint"

-- The unit is spent first and judged afterwards.
unfoldable pub consume : Limiter → String → RateLimit → Instant → Db → Result (Unit {0}) × Db
unfolding limiter_name
consume limiter subject limit now db =
    let start = window_start now limit.window_seconds in
    let (used, db') = consume_rate_limit limiter subject start db in
    let decision : RateLimitDecision = record {
      limiter = limiter;
      limit = limit;
      used = used;
      retry_after_seconds = seconds_until_window_ends now start limit.window_seconds;
    } in
    let exceeded =
      rate_limit_exceeded (limiter_name decision.limiter) decision.limit.requests
        decision.limit.window_seconds decision.retry_after_seconds in
    (refuse (not (allowed decision)) exceeded, db')

-- The cutoff of the sweep.
unfoldable pub sweep_cutoff : Settings → Instant → Result Instant
sweep_cutoff settings now =
    let oldest =
      max settings.rate_limit_ip_window_seconds settings.rate_limit_endpoint_window_seconds in
    earlier now (2 * oldest * second)

abbrev pub swept_before : Result Instant → Db → Result (Unit {0}) × Db
swept_before (ok before) db = (ok tt, (delete_expired_rate_limit_counters before db).1)
swept_before (err e) db = (err e, db)

-- `sweeps`: does the draw fall below the probability, and does the database take the deletion?
unfoldable pub sweep_old_windows :
    (sweeps : Bool) → Settings → Instant → Db → Result (Unit {0}) × Db
unfolding sweep_cutoff
sweep_old_windows sweeps settings now db =
    if sweeps then swept_before (sweep_cutoff settings now) db else (ok tt, db)

unfoldable pub address_subject : Library → Request → Settings → String
address_subject lib request settings =
    let address = client_address request.peer request.forwarded_for settings.trusted_proxy_hops in
    ip_subject lib.ipaddress lib.sha256 lib.hmac address settings.rate_limit_ip_secret

unfoldable pub charge_address : Library → Settings → Request → Instant → Db → Result (Unit {0}) × Db
unfolding consume address_subject
charge_address lib settings request now db =
    if settings.rate_limit_enabled
    then consume ip (address_subject lib request settings) (ip_rate_limit settings) now db
    else (ok tt, db)

unfoldable pub charge_endpoint :
    (sweeps : Bool) → Settings → String → Instant → Db → Result (Unit {0}) × Db
unfolding sweep_old_windows
charge_endpoint sweeps settings endpoint_id now db =
    if settings.rate_limit_enabled
    then and_then (consume endpoint endpoint_id (endpoint_rate_limit settings) now db)
        (sweep_old_windows sweeps settings now)
    else (ok tt, db)

-- What is read of the request once both limiters let it through.
unfoldable pub read_submission :
    Settings
    → Request
    → Endpoint
    → (submission_id : String) (received_at : Instant) → Result (Option String × Submission)
unfolding checked_key is_supported media_type parse_form
read_submission settings request form submission_id received_at =
    let media = media_type request.content_type in
    do
      refuse (not form.is_active) (endpoint_inactive form.id)
      refuse (not (is_supported media)) (unsupported_media_type media)
      key ← checked_key request.idempotency_key
      items ← parse_form request.parsers media settings
      submission ←
          build_submission form.id items settings.max_fields settings.max_field_name_length
            settings.max_field_value_length submission_id received_at
      ok (key, submission)

abbrev pub webhook_of : Option String → Option String → Option WebhookTarget
webhook_of (some url) (some secret) = some (record { url = url; secret = secret })
webhook_of _ _ = none

-- A request without a key needs no fingerprint.
unfoldable pub fingerprint_of : Library → Option String → Fields → Result (Option String)
fingerprint_of lib none fields = ok none
fingerprint_of lib (some key) fields = do
  fingerprint ← payload_fingerprint lib.dumps lib.sha256 fields
  ok (some fingerprint)

abbrev pub translated : Exception → Exception
translated (idempotency_key_reused endpoint_id key) = idempotency_conflict endpoint_id key
translated e = e

unfoldable pub acknowledge : StoredSubmission → SubmissionAccepted
acknowledge stored = record {
  submission_id = stored.submission.id;
  endpoint_id = stored.submission.endpoint_id;
  received_at = stored.submission.received_at;
  count = field_count stored.submission;
  idempotent_replay = stored.replayed;
  queued = stored.delivery_queued;
}

abbrev pub answered : Result (StoredSubmission × Db) → Result (SubmissionAccepted × Db)
answered (ok stored) = ok (acknowledge stored.0, stored.1)
answered (err e) = err (translated e)

abbrev pub with_state {ℓ} : {A : Type ℓ} → Db → Result (A × Db) → Result A × Db
with_state db (ok a) = (ok a.0, a.1)
with_state db (err e) = (err e, db)

unfoldable pub store_read :
    Library
    → (seen : Db) (delivery_id : String) → Endpoint
    → Option String × Submission
    → Db
    → Result (SubmissionAccepted × Db)
unfolding acknowledge fingerprint_of
store_read lib seen delivery_id form (key, submission) db = do
  fingerprint ← fingerprint_of lib key submission.fields
  answered (
      store_submission delivery_id seen submission submission.received_at key fingerprint
        (webhook_of form.webhook_url form.webhook_secret) db)

abbrev pub found_or_404 : String → Option Endpoint → Result Endpoint
found_or_404 endpoint_id none = err (endpoint_not_found endpoint_id)
found_or_404 endpoint_id (some form) = ok form

unfoldable pub resolve_endpoint : String → Db → Result Endpoint
resolve_endpoint endpoint_id db = do
  refuse (not (is_valid_endpoint_id endpoint_id)) invalid_endpoint_id
  found_or_404 endpoint_id (get_endpoint endpoint_id db)

module _ (lib : Library) (settings : Settings) (request : Request) (sweeps : Bool) (seen : Db)
    (delivery_id submission_id : String) (now received_at : Instant) where
  -- The handler from the endpoint's budget on.
  unfoldable pub accept : Endpoint → Db → Result SubmissionAccepted × Db
  unfolding charge_endpoint store_read
  accept form db = and_then (charge_endpoint sweeps settings form.id now db) (λ db'.
      with_state db' (do
        read ← read_submission settings request form submission_id received_at
        store_read lib seen delivery_id form read db'))

  abbrev pub routed : Db → Result Endpoint → Result SubmissionAccepted × Db
  routed db (ok form) = accept form db
  routed db (err e) = (err e, db)

  -- `seen` is what the lookup of an idempotency key reads.
  unfoldable pub submit : (endpoint_id : String) → Db → Result SubmissionAccepted × Db
  unfolding charge_address resolve_endpoint
  submit endpoint_id db =
      and_then (charge_address lib settings request now db)
        (λ db'. routed db' (resolve_endpoint endpoint_id db'))
