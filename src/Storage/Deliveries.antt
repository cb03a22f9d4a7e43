-- ===== src/Storage/Deliveries.antt =====
-- The delivery queue of hymical_forms/storage.py: claiming, completing, replaying. An operation
-- that owns its transaction takes the database and returns what it committed; one that raises
-- has rolled back, and returns no database.
pub mod ClaimLoop
pub mod Claims
pub mod Completions
pub mod Recording
pub mod Fencing
pub mod Draining
pub mod Settling
use forms.Prelude.{
  ℕ, suc, ◌+◌, String, Bool, false, not, ◌&&◌, ◌||◌, Option, none, some, List, [], ◌∷◌, leb, ◌==◌,
  holds, is_some, if◌then◌else◌, filter, take, sort_by,
}
use forms.Exceptions.{Result, ok, err, integrity_error, no_result_found, ◌>>=◌}
use forms.Webhooks.{
  DeliveryState, pending, processing, delivered, failed, is_pending, is_processing, is_failed,
  DeliveryResult, is_succeeded, is_retryable, RetryPolicy, is_exhausted, delay_after,
}
use forms.Models.{Instant, later, WebhookDelivery, DeliveryAttempt, Db}
use forms.Table.{find, update_at, row_count}

-- `column <= now`, which NULL does not satisfy
abbrev pub has_passed : Option Instant → Instant → Bool
has_passed none now = false
has_passed (some t) now = leb t now

unfoldable pub due_condition : Instant → WebhookDelivery → Bool
due_condition now delivery =
    is_some delivery.submission_id
    && (is_pending delivery.state && leb delivery.next_attempt_at now
        || is_processing delivery.state && has_passed delivery.claim_expires_at now)

-- The values that a claim writes.
abbrev pub take_claim : Instant → String → WebhookDelivery → WebhookDelivery
take_claim expires_at token delivery = record delivery {
  state = processing;
  claim_expires_at = some expires_at;
  claim_token = some token;
}

-- The loop over the candidates; `mint i` is the i-th token that `new_claim_token` makes.
unfoldable pub claim_each :
    (mint : ℕ → String) (now expires_at : Instant)
    → ℕ
    → List WebhookDelivery
    → List WebhookDelivery
    → List WebhookDelivery × List WebhookDelivery
claim_each mint now expires_at i [] table = ([], table)
claim_each mint now expires_at i (candidate ∷ rest) table =
    let claim = take_claim expires_at (mint i) in
    let rowcount = row_count (due_condition now) (find (λ r. r.id) candidate.id table) in
    let table' = update_at (λ r. r.id) candidate.id (due_condition now) claim table in
    let (claimed, final) = claim_each mint now expires_at (suc i) rest table' in
    (if rowcount == 1 then claim candidate ∷ claimed else claimed, final)

-- The candidates are selected from `seen`, the table as the select read it; the conditional
-- updates run on the table as they find it.
unfoldable pub claim_due_deliveries :
    (mint : ℕ → String) (now lease : ℕ) (limit : ℕ) (seen : List WebhookDelivery)
    → Db
    → List WebhookDelivery × Db
claim_due_deliveries mint now lease limit seen db =
    let candidates =
      take limit (sort_by (λ r. r.next_attempt_at) (filter (due_condition now) seen)) in
    let (claimed, table) = claim_each mint now (now + lease) 0 candidates db.deliveries in
    (claimed, record db { deliveries = table })

pub record CompletedAttempt : Type 0 where
  pub attempt : DeliveryAttempt
  pub state : DeliveryState
  pub owned : Bool

-- `claim_token is not None and current.claim_token == claim_token`
abbrev pub owns : Option String → Option String → Bool
owns none current = false
owns (some token) current = holds current token

-- The values of an owned completion: what becomes of the delivery.
unfoldable pub settle :
    Instant → RetryPolicy → DeliveryResult → ℕ → ℕ → Result (WebhookDelivery → WebhookDelivery)
settle now policy result attempt_number cycle_attempt =
    let settled = λ (state : DeliveryState) (row : WebhookDelivery). record row {
      attempts = attempt_number;
      cycle_attempts = cycle_attempt;
      claim_expires_at = none;
      claim_token = none;
      state = state;
    } in
    if is_succeeded result.outcome
    then ok (λ row. record (settled delivered row) { completed_at = some now })
    else if is_retryable result && not (is_exhausted policy cycle_attempt)
    then (do
      delay ← delay_after policy cycle_attempt
      due ← later now delay
      ok (λ row. record (settled pending row) { next_attempt_at = due }))
    else ok (λ row. record (settled failed row) { completed_at = some now })

-- Does a reference to a submission name none that is stored?
abbrev pub is_dangling : Option String → Db → Bool
is_dangling none db = false
is_dangling (some s) db = not (is_some (find (λ r. r.id) s db.submissions))

-- INSERT of an attempt: a primary key, and foreign keys to the delivery and to the submission.
unfoldable pub insert_attempt : DeliveryAttempt → Db → Result Db
insert_attempt attempt db =
    if is_some (find (λ r. r.id) attempt.id db.attempts)
      || not (is_some (find (λ r. r.id) attempt.delivery_id db.deliveries))
      || is_dangling attempt.submission_id db
    then err integrity_error
    else ok (record db { attempts = attempt ∷ db.attempts })

-- The change of the row by a worker whose claim still holds, or no longer does.
unfoldable pub transition :
    Bool
    → Instant
    → RetryPolicy
    → DeliveryResult
    → WebhookDelivery
    → Result (WebhookDelivery → WebhookDelivery)
transition owned now policy result current =
    let attempt_number = current.attempts + 1 in
    if owned
    then settle now policy result attempt_number (current.cycle_attempts + 1)
    else ok (λ row. record row { attempts = attempt_number })

-- `delivery` is the row as the worker loaded it, `current` the row as it is stored now.
unfoldable pub complete_current :
    String
    → WebhookDelivery
    → DeliveryResult
    → Instant
    → RetryPolicy
    → Option String
    → Db
    → WebhookDelivery
    → Result (CompletedAttempt × Db)
complete_current attempt_id delivery result now policy claim_token db current = do
  let owned = owns claim_token current.claim_token
  let attempt : DeliveryAttempt = record {
    id = attempt_id;
    delivery_id = delivery.id;
    submission_id = delivery.submission_id;
    attempt_number = current.attempts + 1;
    destination_url = delivery.destination_url;
    attempted_at = now;
    outcome = result.outcome;
    response_status = result.response_status;
    error = result.error;
  }
  change ← transition owned now policy result current
  db' ← insert_attempt attempt db
  let table =
      update_at (λ r. r.id) delivery.id (λ row. not owned || owns claim_token row.claim_token)
        change db'.deliveries
  ok (
    record { attempt = attempt; state = (change current).state; owned = owned },
    record db' { deliveries = table },
  )

-- `.one()` of the query that reads the current row
unfoldable pub complete_found :
    String
    → WebhookDelivery
    → DeliveryResult
    → Instant
    → RetryPolicy
    → Option String
    → Db
    → Option WebhookDelivery
    → Result (CompletedAttempt × Db)
complete_found attempt_id delivery result now policy claim_token db none = err no_result_found
complete_found attempt_id delivery result now policy claim_token db (some current) =
    complete_current attempt_id delivery result now policy claim_token db current

unfoldable pub complete_attempt :
    String
    → WebhookDelivery
    → DeliveryResult
    → Instant
    → RetryPolicy
    → Option String
    → Db
    → Result (CompletedAttempt × Db)
unfolding complete_found
complete_attempt attempt_id delivery result now policy claim_token db =
    complete_found attempt_id delivery result now policy claim_token db
      (find (λ r. r.id) delivery.id db.deliveries)

pub record ReplayOutcome : Type 0 where
  pub delivery : Option WebhookDelivery
  pub requeued : Bool

abbrev pub is_replayable : WebhookDelivery → Bool
is_replayable row = is_failed row.state && is_some row.submission_id

-- The values that a replay writes.
abbrev pub requeue : Instant → WebhookDelivery → WebhookDelivery
requeue now row = record row {
  state = pending;
  cycle_attempts = 0;
  next_attempt_at = now;
  claim_expires_at = none;
  claim_token = none;
  completed_at = none;
}

unfoldable pub requeue_failed_delivery : String → Instant → Db → ReplayOutcome × Db
requeue_failed_delivery delivery_id now db =
    let table = update_at (λ r. r.id) delivery_id is_replayable (requeue now) db.deliveries in
    let rowcount = row_count is_replayable (find (λ r. r.id) delivery_id db.deliveries) in
    (
      record { delivery = find (λ r. r.id) delivery_id table; requeued = rowcount == 1 },
      record db { deliveries = table },
    )
