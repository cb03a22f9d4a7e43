-- ===== src/Exceptions.antt =====
-- The exceptions that the modelled functions raise, and computations that may raise one.
-- Classes of storage.py, retention.py, ingestion.py, middleware.py and the API, and those of
-- SQLAlchemy, the HTTP client, Starlette, FastAPI and Python that the functions let through or catch.
-- `operational_error` is any other error of SQLAlchemy, and `unforeseen` any other exception. An
-- `http_exception` comes with the phrase of HTTPStatus for its status in lower case, if it has one. `invalid_new_endpoint_id` is the class InvalidEndpointId of the management API, which shares
-- its name with that of the public route.
pub mod Raises
use forms.Prelude.{ℕ, String, Bool, true, false, Option, none, some, List, ◌≡◌, refl, ◌⊎◌, inl, inr}
use forms.Messages.{Message, Details, ValidationError}

pub data Exception : Type 0 where
  endpoint_already_exists : String → Exception
  idempotency_key_reused : String → String → Exception
  unknown_cursor : String → Exception
  submission_rejected : (code : String) → Message → Option Details → Exception
  retention_disabled : Exception
  integrity_error : Exception
  no_result_found : Exception
  overflow_error : Exception
  unicode_encode_error : Exception
  operational_error : Exception
  http_exception : (status_code : ℕ) (phrase : Option String) (detail : String) → Exception
  request_validation_error : List ValidationError → Exception
  authentication_required : Exception
  invalid_api_key : Exception
  invalid_endpoint_id : Exception
  invalid_new_endpoint_id : Exception
  endpoint_id_conflict : String → Exception
  endpoint_not_found : String → Exception
  invalid_webhook_url : String → Exception
  rate_limit_exceeded : (scope : String) (limit window_seconds retry_after_seconds : ℕ) → Exception
  endpoint_inactive : String → Exception
  unsupported_media_type : (received : List ℕ) → Exception
  invalid_idempotency_key : Exception
  idempotency_conflict : String → String → Exception
  malformed_form_body : (reason : String) → Exception
  file_upload_not_supported : String → Exception
  invalid_cursor : Exception
  invalid_time_range : Exception
  submission_not_found : String → Exception
  unsupported_export_format : Exception
  export_too_large : ℕ → Exception
  delivery_not_found : String → Exception
  delivery_not_replayable : String → String → Exception
  delivery_submission_deleted : String → String → Exception
  key_error : Exception
  timeout_exception : String → Exception
  request_error : String → Exception
  invalid_url : String → Exception
  timeout_error : Exception
  request_body_too_large : ℕ → Exception
  schema_not_ready : Message → Exception
  unforeseen : Exception

pub data Result {ℓ} (A : Type ℓ) : Type ℓ where
  ok : A → Result A
  err : Exception → Result A

infixl 5 ◌>>◌ ◌>>=◌
abbrev pub ◌>>=◌ {ℓ κ} : {A : Type ℓ} {B : Type κ} → Result A → (A → Result B) → Result B
err raised >>= after = err raised
ok value >>= after = after value

abbrev pub ◌>>◌ {ℓ} : {B : Type ℓ} → Result (Unit {0}) → Result B → Result B
first >> second = first >>= λ _. second

-- `text.encode("utf-8")`: the bytes, unless the text holds a surrogate.
abbrev pub encoded : Option (List ℕ) → Result (List ℕ)
encoded none = err unicode_encode_error
encoded (some bytes) = ok bytes

-- `if b: raise e`
abbrev pub refuse : Bool → Exception → Result (Unit {0})
refuse true e = err e
refuse false e = ok tt

-- The database after a transaction: what it committed, or what it had found if it raised.
abbrev pub committed {ℓ κ} : {A : Type ℓ} {B : Type κ} → B → Result (A × B) → B
committed db (ok (a, db')) = db'
committed db (err e) = db

-- Was an exception raised?
abbrev pub is_ok {ℓ} : {A : Type ℓ} → Result A → Bool
is_ok (ok a) = true
is_ok (err e) = false

pub Result-cases {ℓ} :
    {A : Type ℓ} (r : Result A) → ((a : A) × (r ≡ ok a)) ⊎ ((e : Exception) × (r ≡ err e))
Result-cases (ok a) = inl (a, refl)
Result-cases (err e) = inr (e, refl)

abbrev pub value_or {ℓ} : {A : Type ℓ} → A → Result A → A
value_or a (ok b) = b
value_or a (err e) = a
