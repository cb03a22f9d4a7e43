-- ===== src/Management.antt =====
-- The management reads and the replay: hymical_forms/api/submission_management.py,
-- hymical_forms/api/deliveries.py and hymical_forms/api/validation.py, after a request has been
-- authenticated and parsed. `before` is the database's order on texts.
pub mod Documents
pub mod Exports
pub mod Replays
use forms.Prelude.{
  same_text, ℕ, ◌+◌, String, Bool, true, false, not, ◌&&◌, ◌||◌, Option, none, some, List, [], ◌∷◌,
  map, ltb, leb, ◌==◌, codes, is_some, if◌then◌else◌, length, any,
}
use forms.Exceptions.{
  Exception, Result, ok, err, unknown_cursor, invalid_cursor, invalid_time_range,
  submission_not_found, unsupported_export_format, export_too_large, delivery_not_found,
  delivery_not_replayable, delivery_submission_deleted, refuse, ◌>>=◌, ◌>>◌,
}
use forms.Webhooks.{DeliveryState, pending, processing, delivered, failed, DeliveryOutcome}
use forms.Models.{Instant, Fields, SubmissionRow, WebhookDelivery, DeliveryAttempt, Db}
use forms.Ingestion.{count_values}
use forms.Pages.{next_cursor}
use forms.Storage.Deliveries.{requeue_failed_delivery, ReplayOutcome}
use forms.Storage.Listings.{
  SubmissionFilter, SubmissionRecord, list_submissions, get_submission, count_submissions,
  stream_submissions, list_deliveries, get_delivery, list_delivery_attempts, map_option,
}
use forms.Export.{ExportedSubmission, ExportedObject, exportable, csv_document, json_document}

unfoldable pub contains_nul : String → Bool
contains_nul value = any (λ c. c == 0) (codes value)

pub record DeliverySummary : Type 0 where
  pub id : String
  pub state : DeliveryState
  pub attempt_count : ℕ

unfoldable pub delivery_summary : WebhookDelivery → DeliverySummary
delivery_summary delivery = record {
  id = delivery.id;
  state = delivery.state;
  attempt_count = delivery.attempts;
}

pub record SubmissionSummary : Type 0 where
  pub id : String
  pub endpoint_id : String
  pub received_at : Instant
  pub count : ℕ
  pub idempotent : Bool
  pub delivery : Option DeliverySummary

unfoldable pub summary : SubmissionRecord → SubmissionSummary
unfolding delivery_summary
summary stored = record {
  id = stored.submission.id;
  endpoint_id = stored.submission.endpoint_id;
  received_at = stored.submission.received_at;
  count = count_values stored.submission.fields;
  idempotent = is_some stored.submission.idempotency_key;
  delivery = map_option delivery_summary stored.delivery;
}

abbrev is_empty_range : Option Instant → Option Instant → Bool
is_empty_range (some after) (some before) = leb before after
is_empty_range _ _ = false

unfoldable pub filters_of :
    (endpoint_id : Option String) (received_after received_before : Option Instant)
    → Result SubmissionFilter
filters_of endpoint_id received_after received_before = do
  refuse (is_empty_range received_after received_before) invalid_time_range
  ok (record {
    endpoint_id = endpoint_id;
    received_after = received_after;
    received_before = received_before;
  })

-- The handler of UnknownCursor.
abbrev pub or_invalid_cursor {ℓ} : {A : Type ℓ} → Result A → Result A
or_invalid_cursor (ok page) = ok page
or_invalid_cursor (err (unknown_cursor cursor)) = err invalid_cursor
or_invalid_cursor (err e) = err e

pub record DeliveryView : Type 0 where
  pub id : String
  pub submission_id : Option String
  pub endpoint_id : String
  pub state : DeliveryState
  pub destination_url : String
  pub attempt_count : ℕ
  pub cycle_attempt_count : ℕ
  pub next_attempt_at : Instant
  pub created_at : Instant
  pub completed_at : Option Instant

unfoldable pub view : WebhookDelivery → DeliveryView
view delivery = record {
  id = delivery.id;
  submission_id = delivery.submission_id;
  endpoint_id = delivery.endpoint_id;
  state = delivery.state;
  destination_url = delivery.destination_url;
  attempt_count = delivery.attempts;
  cycle_attempt_count = delivery.cycle_attempts;
  next_attempt_at = delivery.next_attempt_at;
  created_at = delivery.created_at;
  completed_at = delivery.completed_at;
}

pub record DeliveryAttemptView : Type 0 where
  pub attempt_number : ℕ
  pub attempted_at : Instant
  pub outcome : DeliveryOutcome
  pub response_status : Option ℕ
  pub error : Option String

unfoldable pub attempt_view : DeliveryAttempt → DeliveryAttemptView
attempt_view attempt = record {
  attempt_number = attempt.attempt_number;
  attempted_at = attempt.attempted_at;
  outcome = attempt.outcome;
  response_status = attempt.response_status;
  error = attempt.error;
}

abbrev pub found {ℓ} : {A : Type ℓ} → Exception → Option A → Result A
found e none = err e
found e (some a) = ok a

-- The value of a state, which the errors name.
abbrev pub state_name : DeliveryState → String
state_name pending = "pending"
state_name processing = "processing"
state_name delivered = "delivered"
state_name failed = "failed"

-- The answer to a replay: the errors are checked in this order.
unfoldable pub replay_answer : String → Bool → Option WebhookDelivery → Result DeliveryView
unfolding view
replay_answer delivery_id requeued none = err (delivery_not_found delivery_id)
replay_answer delivery_id requeued (some row) = do
  refuse (not requeued && not (is_some row.submission_id))
      (delivery_submission_deleted delivery_id (state_name row.state))
  refuse (not requeued) (delivery_not_replayable delivery_id (state_name row.state))
  ok (view row)

-- The requeue commits before the answer is chosen.
unfoldable pub replay_delivery : String → Instant → Db → Result DeliveryView × Db
unfolding replay_answer contains_nul
replay_delivery delivery_id now db =
    let (outcome, db') = requeue_failed_delivery delivery_id now db in
    if contains_nul delivery_id
    then (err (delivery_not_found delivery_id), db)
    else (replay_answer delivery_id outcome.requeued outcome.delivery, db')

module _ (before : String → String → Bool) where
  unfoldable pub list_submissions_route :
      (endpoint_id : Option String) (received_after received_before : Option Instant) (limit : ℕ)
      (cursor : Option String)
      → Db
      → Result (List SubmissionSummary × Option String)
  unfolding filters_of summary
  list_submissions_route endpoint_id received_after received_before limit cursor db = do
    filters ← filters_of endpoint_id received_after received_before
    page ← or_invalid_cursor (list_submissions before filters limit cursor db)
    ok (map summary page, next_cursor (map (λ (r : SubmissionRecord). r.submission.id) page) limit)

  unfoldable pub list_deliveries_route :
      (endpoint_id : Option String) (state : Option DeliveryState) (limit : ℕ)
      (cursor : Option String)
      → Db
      → Result (List DeliveryView × Option String)
  unfolding view
  list_deliveries_route endpoint_id state limit cursor db = do
    page ← or_invalid_cursor (list_deliveries before limit cursor endpoint_id state db)
    ok (map view page, next_cursor (map (λ (d : WebhookDelivery). d.id) page) limit)

  unfoldable pub get_delivery_route : String → Db → Result (DeliveryView × List DeliveryAttemptView)
  unfolding view attempt_view contains_nul
  get_delivery_route delivery_id db = do
    refuse (contains_nul delivery_id) (delivery_not_found delivery_id)
    delivery ← found (delivery_not_found delivery_id) (get_delivery delivery_id db)
    ok (view delivery, map attempt_view (list_delivery_attempts before delivery_id db))

unfoldable pub get_submission_route : String → Db → Result (SubmissionSummary × Fields)
unfolding summary contains_nul
get_submission_route submission_id db = do
  refuse (contains_nul submission_id) (submission_not_found submission_id)
  stored ← found (submission_not_found submission_id) (get_submission submission_id db)
  ok (summary stored, stored.submission.fields)
