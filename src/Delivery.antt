-- ===== src/Delivery.antt =====
-- One outbound attempt: hymical_forms/delivery.py, and the payload of hymical_forms/webhooks.py that
-- it signs and sends. A body is a list of bytes.
pub mod Answers
use forms.Prelude.{
  ℕ, zero, suc, ◌+◌, String, ◌+++◌, Bool, true, false, not, ◌&&◌, Option, none, some, List, [], ◌∷◌,
  ltb, leb, str_eq, if◌then◌else◌,
}
use forms.Exceptions.{
  Exception, Result, ok, err, encoded, timeout_exception, request_error, invalid_url, timeout_error,
}
use forms.Webhooks.{DeliveryOutcome, succeeded, http_error, timeout, network_error, DeliveryResult}
use forms.Models.{Instant, Fields}
use forms.Ingestion.{Submission}

-- What the code takes from its libraries: the HMAC in hexadecimal, `json.dumps` of a payload as
-- UTF-8, if it can be encoded, `isoformat` with its Z, `str` of a number, `str.strip`, and the `g` format of a wait.
pub record Wire : Type 0 where
  pub hexdigest : (secret : String) (body : List ℕ) → String
  pub dumps : (kind id endpoint_id received_at : String) (fields : Fields) → Option (List ℕ)
  pub rfc3339 : Instant → String
  pub number : ℕ → String
  pub strip : String → String
  pub general : ℕ → String
  pub user_agent : String

abbrev pub Headers : Type 0
Headers = List (String × String)

-- `client.stream("POST", ...)` under the deadline: the response's status, or what it raised.
abbrev pub Client : Type 0
Client = (deadline : ℕ) (url : String) (body : List ℕ) (headers : Headers) → Result ℕ

unfoldable pub build_payload :
    (rfc3339 : Instant → String) → Submission → String × String × String × String × Fields
build_payload rfc3339 submission = (
  "submission.received",
  submission.id,
  submission.endpoint_id,
  rfc3339 submission.received_at,
  submission.fields,
)

unfoldable pub serialize_payload :
    (dumps : (kind id endpoint_id received_at : String) (fields : Fields) → Option (List ℕ))
    → String × String × String × String × Fields
    → Result (List ℕ)
serialize_payload dumps (kind, id, endpoint_id, received_at, fields) =
    encoded (dumps kind id endpoint_id received_at fields)

unfoldable pub sign : Wire → (body : List ℕ) (secret : String) → String
sign wire body secret = "v1=" +++ wire.hexdigest secret body

-- `message[:n]`
unfoldable pub take_text : ℕ → String → String
take_text zero s = ""
take_text (suc n) String.[] = ""
take_text (suc n) (String.◌∷◌ c s) = String.◌∷◌ c (take_text n s)

abbrev pub delivery_error_max_length : ℕ
delivery_error_max_length = 500

unfoldable pub describe : Wire → (words text : String) → String
unfolding take_text
describe wire words text =
    let detail = wire.strip text in
    take_text delivery_error_max_length
      (if str_eq detail "" then words else words +++ ": " +++ detail)

unfoldable pub answered : Wire → ℕ → DeliveryResult
answered wire status =
    if leb 200 status && ltb status 300
    then record { outcome = succeeded; response_status = some status; error = none }
    else record {
      outcome = http_error;
      response_status = some status;
      error = some ("destination responded with HTTP " +++ wire.number status);
    }

abbrev pub unanswered : DeliveryOutcome → String → DeliveryResult
unanswered outcome error = record { outcome = outcome; response_status = none; error = some error }

-- The clauses of the `try`; any other exception goes through.
unfoldable pub conclude : Wire → (deadline : ℕ) → Result ℕ → Result DeliveryResult
unfolding describe answered
conclude wire deadline (ok status) = ok (answered wire status)
conclude wire deadline (err (timeout_exception text)) =
    ok (unanswered timeout (describe wire "timed out" text))
conclude wire deadline (err (request_error text)) =
    ok (unanswered network_error (describe wire "could not connect" text))
conclude wire deadline (err (invalid_url text)) =
    ok (unanswered network_error (describe wire "invalid destination URL" text))
conclude wire deadline (err timeout_error) = ok (
    unanswered timeout
      ("timed out: no response within the " +++ wire.general deadline +++ "s attempt deadline"))
conclude wire deadline (err e) = err e

unfoldable pub deliver :
    Wire → Client → (url secret : String) (body : List ℕ) (deadline : ℕ) → Result DeliveryResult
unfolding conclude sign
deliver wire client url secret body deadline =
    let headers =
      ("Content-Type", "application/json")
      ∷ ("Hymical-Signature", sign wire body secret)
      ∷ ("User-Agent", wire.user_agent)
      ∷ [] in
    conclude wire deadline (client deadline url body headers)
