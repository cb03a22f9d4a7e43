-- ===== src/Tests/Workers.antt =====
-- A tick of the worker against a destination that answers, and one that does not.
use forms.Prelude.{arith, some, ◌≡◌, refl, not, [], ◌∷◌, is_some, length, map}
use forms.Exceptions.{ok, err, request_error}
use forms.Webhooks.{is_retryable, is_succeeded, delivered}
use forms.Models.{WebhookDelivery}
use forms.Table.{find}
use forms.Storage.Deliveries.{claim_due_deliveries}
use forms.Delivery.{Wire, Client}
use forms.Delivery.Answers.{response, status_of, is_success, is_transient, attempt_exact}
use forms.Worker.{
  Circumstances, attempt, process_batch, run_worker, Tick, record_each, current_job, attempts,
  load_submissions, load_carried, carried, bodies, get_item,
}
use forms.Storage.Deliveries.{
  claim_each, due_condition, complete_attempt, complete_current, transition, settle, insert_attempt,
}
use forms.Delivery.{deliver, conclude, answered, serialize_payload}
use forms.Table.{update_at}
use forms.Worker.Loads.{HasSubmission, process_batch_returns}
use forms.Tests.Samples.{waiting, held, with_delivery, policy, mint, minute}

abbrev pub wire : Wire
wire = record {
  hexdigest = λ secret body. "00";
  dumps = λ kind id endpoint_id received_at fields. some [];
  rfc3339 = λ t. "1970-01-01T00:00:00Z";
  number = λ n. "200";
  strip = λ text. text;
  general = λ n. "15";
  user_agent = "Hymical-Forms/0";
}

abbrev pub answering : Client
answering deadline url body headers = ok 200

abbrev unreachable : Client
unreachable deadline url body headers = err (request_error "refused")

abbrev pub alone : Circumstances
alone = record {
  mint = mint;
  attempt_ids = λ i. "att_1";
  meanwhile = λ i db. db;
  client = answering;
  wire = wire;
}

attempt_exact_example :
    let result = attempt wire unreachable 15 held [] in
    let status = status_of (response wire unreachable 15 held []) in
    (result.response_status ≡ status)
    × (is_succeeded result.outcome ≡ is_success status)
    × (is_some result.error ≡ not (is_success status))
    × (is_retryable result ≡ is_transient status)
attempt_exact_example = attempt_exact wire unreachable 15 held []

abbrev pub tick : Tick
tick = record { around = alone; since = λ db. db; now = 1000; seen = waiting ∷ [] }

-- The first tick delivers, the second finds nothing to do and waits.
delivered_once :
    map
      (λ (d : WebhookDelivery). d.state)
      (run_worker minute 10 15 policy (tick ∷ tick ∷ []) (with_delivery waiting)).1.deliveries
    ≡ delivered ∷ []
unfolding serialize_payload run_worker process_batch record_each current_job attempts attempt
    load_submissions load_carried carried bodies get_item deliver conclude answered
    claim_due_deliveries claim_each due_condition find update_at complete_attempt complete_current
    transition settle insert_attempt
delivered_once = refl

carried_job :
    HasSubmission
      (claim_due_deliveries mint 1000 minute 10 (waiting ∷ []) (with_delivery waiting)).1
      waiting
unfolding claim_due_deliveries find
carried_job = ("sub_1", refl, refl)

process_batch_returns_example :
    (process_batch alone 1000 minute 10 15 policy (waiting ∷ []) (with_delivery waiting)).0
    ≡ ok
        (length (claim_due_deliveries mint 1000 minute 10 (waiting ∷ []) (with_delivery waiting)).0)
unfolding claim_due_deliveries serialize_payload
process_batch_returns_example =
    process_batch_returns alone 1000 minute 10 15 policy (waiting ∷ []) (with_delivery waiting)
      (omega arith) (λ due. carried_job, tt) (refl, tt)
