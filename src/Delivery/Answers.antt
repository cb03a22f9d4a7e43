-- ===== src/Delivery/Answers.antt =====
-- What an attempt reports: `deliver` of hymical_forms/delivery.py and `_attempt` of
-- hymical_forms/worker.py.
use forms.Prelude.{
  ℕ, suc, zero, ◌≤◌, String, ◌+++◌, ◌≡◌, refl, Bool, true, false, ◌&&◌, not, Option, none, some,
  arith, is_some, leb, ltb, str_eq, if◌then◌else◌, List, [], ◌∷◌, ◌||◌,
}
use Prim.Native.Char.{Char}
use Prim.Native.String.{count}
use Prim.Native.String.count.{cons}
use forms.Exceptions.{Result, ok, err, timeout_exception, request_error, invalid_url, timeout_error}
use forms.Webhooks.{is_succeeded, is_retryable, is_retryable_status}
use forms.Models.{WebhookDelivery}
use forms.Delivery.{Wire, Client, take_text, describe, answered, conclude, deliver, sign}
use forms.Worker.{attempt, or_unexpected}

count_cons : (c : Char) (s : String) → count (String.◌∷◌ c s) ≡ suc (count s)
count_cons c s i = cons c s i

count-take_text : (n : ℕ) (s : String) → count (take_text n s) ≤ n
unfolding take_text
count-take_text zero s = omega arith
count-take_text (suc n) String.[] = omega arith
count-take_text (suc n) (String.◌∷◌ c s) =
    omega (arith, count-take_text n s, count_cons c (take_text n s))

-- The status of a response, if there was one.
abbrev pub status_of : Result ℕ → Option ℕ
status_of (ok status) = some status
status_of (err e) = none

-- `200 <= status < 300`, of a response
abbrev pub is_success : Option ℕ → Bool
is_success none = false
is_success (some status) = leb 200 status && ltb status 300

-- Is it worth another attempt?
abbrev pub is_transient : Option ℕ → Bool
is_transient none = true
is_transient (some status) = leb 500 status || is_retryable_status status

-- What a client answered, to a request that carries the signature of its own body.
abbrev pub response : Wire → Client → (deadline : ℕ) → WebhookDelivery → (body : List ℕ) → Result ℕ
response wire client deadline job body = client deadline job.destination_url body (
    ("Content-Type", "application/json")
    ∷ ("Hymical-Signature", sign wire body job.signing_secret)
    ∷ ("User-Agent", wire.user_agent)
    ∷ [])

answer_lem :
    (wire : Wire) (deadline : ℕ) (answer : Result ℕ)
    → let result = or_unexpected (conclude wire deadline answer) in
      (result.response_status ≡ status_of answer)
      × (is_succeeded result.outcome ≡ is_success (status_of answer))
      × (is_some result.error ≡ not (is_success (status_of answer)))
      × (is_retryable result ≡ is_transient (status_of answer))
unfolding conclude answered is_retryable
answer_lem wire deadline (ok status) = ground arith
answer_lem wire deadline (err (timeout_exception text)) = (refl, refl, refl, refl)
answer_lem wire deadline (err (request_error text)) = (refl, refl, refl, refl)
answer_lem wire deadline (err (invalid_url text)) = (refl, refl, refl, refl)
answer_lem wire deadline (err timeout_error) = (refl, refl, refl, refl)
answer_lem wire deadline (err _) = (refl, refl, refl, refl)

-- The text that describes a failure fits the column that it is stored in.
pub count-describe : (wire : Wire) (words text : String) → count (describe wire words text) ≤ 500
unfolding describe
count-describe wire words text =
    count-take_text 500
      (if str_eq (wire.strip text) "" then words else words +++ ": " +++ wire.strip text)

-- An attempt never raises: it reports the status of the response where there is one and none
-- otherwise, success exactly for a status from 200 to 299, and a text of the error exactly where
-- it is no success; and it is worth another attempt exactly where there was no response, for any
-- exception, or the status is 500 or more, or 408, 425 or 429.
pub attempt_exact :
    (wire : Wire) (client : Client) (deadline : ℕ) (job : WebhookDelivery) (body : List ℕ)
    → let result = attempt wire client deadline job body in
      let status = status_of (response wire client deadline job body) in
      (result.response_status ≡ status)
      × (is_succeeded result.outcome ≡ is_success status)
      × (is_some result.error ≡ not (is_success status))
      × (is_retryable result ≡ is_transient status)
unfolding attempt deliver
attempt_exact wire client deadline job body =
    answer_lem wire deadline (response wire client deadline job body)
