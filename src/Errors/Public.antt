-- ===== src/Errors/Public.antt =====
-- The errors of the public route and of the body limit: the subclasses of ApiError in
-- hymical_forms/api/submissions.py and hymical_forms/middleware.py.
use forms.Prelude.{ℕ, String, none, some, List, [], ◌∷◌, take}
use forms.Messages.{
  Message, text, number, quoted, Value, null, string, characters, integer, strings,
}
use forms.Ingestion.{
  endpoint_id_min_length, endpoint_id_max_length, idempotency_key_min_length,
  idempotency_key_max_length,
}
use forms.Submit.Forms.{urlencoded, multipart}
use forms.Errors.Envelope.{ApiError, bare}

abbrev pub endpoint_id_rule : Message
endpoint_id_rule =
    text "Endpoint IDs are "
    ∷ number endpoint_id_min_length
    ∷ text "-"
    ∷ number endpoint_id_max_length
    ∷ text
        " characters using lowercase letters, digits, '-' and '_', and must start and end with a letter or digit."
    ∷ []

abbrev pub idempotency_key_rule : Message
idempotency_key_rule =
    text "Idempotency keys are "
    ∷ number idempotency_key_min_length
    ∷ text "-"
    ∷ number idempotency_key_max_length
    ∷ text " printable ASCII characters with no spaces. Use a random value such as a UUID."
    ∷ []

abbrev pub invalid_endpoint_id_error : ApiError
invalid_endpoint_id_error =
    bare 404 "invalid_endpoint_id"
      (text "The path does not address a form endpoint. " ∷ endpoint_id_rule) none

-- The class of the same name in hymical_forms/api/endpoints.py says the same.
abbrev pub endpoint_not_found_error : String → ApiError
endpoint_not_found_error endpoint_id =
    bare 404 "endpoint_not_found"
      (text "No form endpoint with the ID " ∷ quoted endpoint_id ∷ text " exists." ∷ [])
      (some (("endpoint_id", string endpoint_id) ∷ []))

abbrev pub endpoint_inactive_error : String → ApiError
endpoint_inactive_error endpoint_id =
    bare 409 "endpoint_inactive"
      (text "The form endpoint " ∷ quoted endpoint_id ∷ text " is not accepting submissions." ∷ [])
      (some (("endpoint_id", string endpoint_id) ∷ []))

abbrev pub invalid_idempotency_key_error : ApiError
invalid_idempotency_key_error =
    bare 400 "invalid_idempotency_key"
      (text "The Idempotency-Key header is not usable. " ∷ idempotency_key_rule) none

abbrev pub idempotency_conflict_error : (endpoint_id idempotency_key : String) → ApiError
idempotency_conflict_error endpoint_id idempotency_key =
    bare 409 "idempotency_conflict"
      (text "The Idempotency-Key "
        ∷ quoted idempotency_key
        ∷ text " was already used on endpoint "
        ∷ quoted endpoint_id
        ∷ text " for a different submission."
        ∷ [])
      (some
        (("endpoint_id", string endpoint_id) ∷ ("idempotency_key", string idempotency_key) ∷ []))

abbrev pub media_type_echo_limit : ℕ
media_type_echo_limit = 128

-- `text or None`
abbrev pub or_null : List ℕ → Value
or_null [] = null
or_null (c ∷ rest) = characters (c ∷ rest)

abbrev pub unsupported_media_type_error : (received : List ℕ) → ApiError
unsupported_media_type_error received =
    bare 415 "unsupported_media_type"
      (text "Form submissions must be sent as "
        ∷ text urlencoded
        ∷ text " or "
        ∷ text multipart
        ∷ text "."
        ∷ [])
      (some (
        ("received", or_null (take media_type_echo_limit received))
        ∷ ("supported", strings (urlencoded ∷ multipart ∷ []))
        ∷ []))

abbrev pub malformed_form_body_error : (reason : String) → ApiError
malformed_form_body_error reason =
    bare 400 "malformed_form_body" (text "The request body could not be parsed as form data." ∷ [])
      (some (("reason", string reason) ∷ []))

abbrev pub file_upload_not_supported_error : (field_name : String) → ApiError
file_upload_not_supported_error field_name =
    bare 422 "file_upload_not_supported"
      (text "Field "
        ∷ quoted field_name
        ∷ text " carries a file upload, which is not supported."
        ∷ [])
      (some (("field", string field_name) ∷ []))

-- Its `as_response` adds the header, which is built for each instance.
abbrev pub rate_limit_exceeded_error :
    (scope : String) (limit window_seconds retry_after_seconds : ℕ) → ApiError
rate_limit_exceeded_error scope limit window_seconds retry_after_seconds = record {
  status_code = 429;
  code = "rate_limit_exceeded";
  message =
      text "Too many submission attempts. Try again in "
      ∷ number retry_after_seconds
      ∷ text " seconds."
      ∷ [];
  details = some (
      ("scope", string scope)
      ∷ ("limit", integer limit)
      ∷ ("window_seconds", integer window_seconds)
      ∷ ("retry_after_seconds", integer retry_after_seconds)
      ∷ []);
  headers = ("Retry-After", number retry_after_seconds) ∷ [];
}

abbrev pub request_body_too_large_error : (limit : ℕ) → ApiError
request_body_too_large_error limit =
    bare 413 "request_body_too_large"
      (text "Request body exceeds the limit of " ∷ number limit ∷ text " bytes." ∷ [])
      (some (("limit_bytes", integer limit) ∷ []))
