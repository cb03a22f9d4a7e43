-- ===== src/Errors.antt =====
-- hymical_forms/errors.py: the handlers that render everything a request can raise in one envelope.
-- The table of HTTPStatus and `str.lower` are arguments.
pub mod Envelope
pub mod Public
pub mod Managed
pub mod Answers
pub mod Reading
pub mod Submitting
use Prim.Native.Char.{Char, code}
use forms.Prelude.{
  ℕ, String, Bool, Option, none, some, List, [], ◌∷◌, ◌==◌, str_eq, map, drop, if◌then◌else◌,
}
use forms.Messages.{Part, text, Message, Details, issues, ValidationError}
use forms.Exceptions.{Exception}
use forms.Errors.Envelope.{ErrorResponse, ApiError, error_response, as_response}
use forms.Errors.Public.*
use forms.Errors.Managed.*

-- The ApiError that an exception is, if it is one.
unfoldable pub api_error : Exception → Option ApiError
api_error Exception.invalid_endpoint_id = some invalid_endpoint_id_error
api_error (Exception.endpoint_not_found id) = some (endpoint_not_found_error id)
api_error (Exception.endpoint_inactive id) = some (endpoint_inactive_error id)
api_error Exception.invalid_idempotency_key = some invalid_idempotency_key_error
api_error (Exception.idempotency_conflict id key) = some (idempotency_conflict_error id key)
api_error (Exception.unsupported_media_type received) = some (unsupported_media_type_error received)
api_error (Exception.malformed_form_body reason) = some (malformed_form_body_error reason)
api_error (Exception.file_upload_not_supported name) = some (file_upload_not_supported_error name)
api_error (Exception.rate_limit_exceeded scope limit window wait) =
    some (rate_limit_exceeded_error scope limit window wait)
api_error (Exception.request_body_too_large limit) = some (request_body_too_large_error limit)
api_error Exception.invalid_new_endpoint_id = some invalid_new_endpoint_id_error
api_error (Exception.endpoint_id_conflict id) = some (endpoint_id_conflict_error id)
api_error (Exception.invalid_webhook_url reason) = some (invalid_webhook_url_error reason)
api_error Exception.authentication_required = some authentication_required_error
api_error Exception.invalid_api_key = some invalid_api_key_error
api_error (Exception.delivery_not_found id) = some (delivery_not_found_error id)
api_error (Exception.delivery_not_replayable id state) =
    some (delivery_not_replayable_error id state)
api_error (Exception.delivery_submission_deleted id state) =
    some (delivery_submission_deleted_error id state)
api_error (Exception.submission_not_found id) = some (submission_not_found_error id)
api_error Exception.invalid_time_range = some invalid_time_range_error
api_error Exception.unsupported_export_format = some unsupported_export_format_error
api_error (Exception.export_too_large maximum) = some (export_too_large_error maximum)
api_error Exception.invalid_cursor = some invalid_cursor_error
api_error _ = none

unfoldable pub handle_submission_rejected : String → Message → Option Details → ErrorResponse
unfolding error_response
handle_submission_rejected code message details = error_response 422 code message details []

unfoldable pub handle_storage_error : ErrorResponse
unfolding error_response
handle_storage_error =
    error_response 503 "storage_unavailable"
      (text "The submission could not be stored. Try again shortly." ∷ []) none []

unfoldable pub handle_unexpected_error : ErrorResponse
unfolding error_response
handle_unexpected_error =
    error_response 500 "internal_error" (text "The request could not be processed." ∷ []) none []

-- `text.replace(old, new)` of one character.
unfoldable pub replaced : (old : ℕ) (new : Char) → String → String
replaced old new String.[] = String.[]
replaced old new (String.◌∷◌ c rest) =
    String.◌∷◌ (if code c == old then new else c) (replaced old new rest)

unfoldable pub code_for_status : (phrase : ℕ → Option String) (lower : String → String) → ℕ → String
unfolding replaced
code_for_status phrase lower status_code = named (phrase status_code)
  where
    named : Option String → String
    named none = "http_error"
    named (some words) = replaced b' ' "_" (replaced b'-' " " (lower words))

unfoldable pub handle_http_exception :
    (phrase : ℕ → Option String) (lower : String → String) (status_code : ℕ) (detail : String)
    → ErrorResponse
unfolding code_for_status error_response
handle_http_exception phrase lower status_code detail =
    error_response status_code (code_for_status phrase lower status_code) (text detail ∷ []) none []

-- `".".join(...)`
unfoldable pub dotted : List Part → Message
dotted [] = []
dotted (part ∷ []) = part ∷ []
dotted (part ∷ next ∷ rest) = part ∷ text "." ∷ dotted (next ∷ rest)

-- `joined or None`: what is joined is empty if there is no part, or one that is empty.
unfoldable pub or_none : Message → Option Message
or_none [] = none
or_none (text s ∷ []) = if str_eq s "" then none else some (text s ∷ [])
or_none (part ∷ rest) = some (part ∷ rest)

unfoldable pub issue_of : ValidationError → Option Message × String
unfolding or_none dotted
issue_of e = (or_none (dotted (drop 1 e.loc)), e.msg)

unfoldable pub handle_request_validation_error : List ValidationError → ErrorResponse
unfolding error_response issue_of
handle_request_validation_error errors =
    error_response 422 "invalid_request" (text "The request body could not be validated." ∷ [])
      (listed (map issue_of errors)) []
  where
    listed : List (Option Message × String) → Option Details
    listed [] = none
    listed (i ∷ rest) = some (("fields", issues (i ∷ rest)) ∷ [])

-- The handler of the nearest class: an ApiError, a SubmissionRejected, an SQLAlchemyError, an
-- HTTPException of Starlette, a RequestValidationError, or any other exception.
unfoldable pub handle_exception : Option ApiError → Exception → ErrorResponse
unfolding as_response handle_submission_rejected handle_storage_error handle_unexpected_error
    handle_http_exception handle_request_validation_error
handle_exception (some e) raised = as_response e
handle_exception none (Exception.submission_rejected code message details) =
    handle_submission_rejected code message details
handle_exception none Exception.integrity_error = handle_storage_error
handle_exception none Exception.no_result_found = handle_storage_error
handle_exception none Exception.operational_error = handle_storage_error
handle_exception none (Exception.http_exception status_code phrase detail) =
    handle_http_exception (λ code. phrase) (λ words. words) status_code detail
handle_exception none (Exception.request_validation_error errors) =
    handle_request_validation_error errors
handle_exception none _ = handle_unexpected_error

unfoldable pub answer : Exception → ErrorResponse
unfolding handle_exception api_error
answer e = handle_exception (api_error e) e
