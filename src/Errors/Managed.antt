-- ===== src/Errors/Managed.antt =====
-- The errors of the management routes: the subclasses of ApiError in hymical_forms/api/endpoints.py,
-- security.py, deliveries.py, submission_management.py and pagination.py.
use forms.Prelude.{ℕ, String, none, some, [], ◌∷◌}
use forms.Messages.{text, number, quoted, string, integer, strings}
use forms.Errors.Envelope.{ApiError, Headers, bare}
use forms.Errors.Public.{endpoint_id_rule}

abbrev pub invalid_new_endpoint_id_error : ApiError
invalid_new_endpoint_id_error =
    bare 422 "invalid_endpoint_id" endpoint_id_rule (some (("field", string "id") ∷ []))

abbrev pub endpoint_id_conflict_error : String → ApiError
endpoint_id_conflict_error endpoint_id =
    bare 409 "endpoint_already_exists"
      (text "An endpoint with the ID " ∷ quoted endpoint_id ∷ text " already exists." ∷ [])
      (some (("endpoint_id", string endpoint_id) ∷ []))

abbrev pub invalid_webhook_url_error : (reason : String) → ApiError
invalid_webhook_url_error reason =
    bare 422 "invalid_webhook_url" (text "The webhook URL " ∷ text reason ∷ text "." ∷ [])
      (some (("field", string "webhook_url") ∷ []))

abbrev pub www_authenticate : Headers
www_authenticate = ("WWW-Authenticate", text "Bearer") ∷ []

abbrev pub authentication_required_error : ApiError
authentication_required_error =
    let e : ApiError =
      bare 401 "authentication_required"
        (text "This endpoint requires a management API key. "
          ∷ text "Send a management API key as 'Authorization: Bearer hym_live_...'."
          ∷ [])
        none in
    record e { headers = www_authenticate }

abbrev pub invalid_api_key_error : ApiError
invalid_api_key_error =
    let e : ApiError =
      bare 401 "invalid_api_key" (text "The management API key is not valid." ∷ []) none in
    record e { headers = www_authenticate }

abbrev pub delivery_not_found_error : String → ApiError
delivery_not_found_error delivery_id =
    bare 404 "delivery_not_found"
      (text "No webhook delivery with the ID " ∷ quoted delivery_id ∷ text " exists." ∷ [])
      (some (("delivery_id", string delivery_id) ∷ []))

abbrev pub delivery_not_replayable_error : (delivery_id state : String) → ApiError
delivery_not_replayable_error delivery_id state =
    bare 409 "delivery_not_replayable"
      (text "Only a delivery that has terminally failed can be replayed. Delivery "
        ∷ quoted delivery_id
        ∷ text " is "
        ∷ quoted state
        ∷ text "."
        ∷ [])
      (some (("delivery_id", string delivery_id) ∷ ("state", string state) ∷ []))

abbrev pub delivery_submission_deleted_error : (delivery_id state : String) → ApiError
delivery_submission_deleted_error delivery_id state =
    bare 409 "delivery_not_replayable"
      (text "Delivery "
        ∷ quoted delivery_id
        ∷ text
            " cannot be replayed because its submission has been deleted, so there is no payload left to send."
        ∷ [])
      (some (
        ("delivery_id", string delivery_id)
        ∷ ("state", string state)
        ∷ ("reason", string "submission_deleted")
        ∷ []))

abbrev pub submission_not_found_error : String → ApiError
submission_not_found_error submission_id =
    bare 404 "submission_not_found"
      (text "No submission with the ID " ∷ quoted submission_id ∷ text " exists." ∷ [])
      (some (("submission_id", string submission_id) ∷ []))

abbrev pub invalid_time_range_error : ApiError
invalid_time_range_error =
    bare 422 "invalid_time_range"
      (text "received_after must be strictly earlier than received_before. "
        ∷ text "Both bounds are exclusive, so a range where they are equal matches nothing."
        ∷ [])
      (some (("fields", strings ("received_after" ∷ "received_before" ∷ [])) ∷ []))

abbrev pub unsupported_export_format_error : ApiError
unsupported_export_format_error =
    bare 422 "unsupported_export_format" (text "Exports are written as json or csv." ∷ [])
      (some (("field", string "format") ∷ ("supported", strings ("json" ∷ "csv" ∷ [])) ∷ []))

abbrev pub export_too_large_error : (maximum : ℕ) → ApiError
export_too_large_error maximum =
    bare 422 "export_too_large"
      (text "This filter matches more than "
        ∷ number maximum
        ∷ text " submissions, which is the most one export may return. "
        ∷ text
            "Narrow it with received_after and received_before, or with endpoint_id, and export the range in parts."
        ∷ [])
      (some (("limit", integer maximum) ∷ []))

abbrev pub invalid_cursor_error : ApiError
invalid_cursor_error =
    bare 422 "invalid_cursor"
      (text "The cursor does not continue from a known row. "
        ∷ text "Request the first page without one to start again."
        ∷ [])
      (some (("field", string "cursor") ∷ []))
