-- ===== src/Worker.antt =====
-- One tick of the delivery worker: `process_batch` of hymical_forms/worker.py, and
-- `load_submissions` of hymical_forms/storage.py.
pub mod Ticks
pub mod Loads
pub mod Process
use forms.Prelude.{
  ◌+◌, ltb, ℕ, suc, String, Bool, true, false, not, ◌||◌, Option, none, some, List, [], ◌∷◌, map,
  length, str_eq, ◌==◌, if◌then◌else◌,
}
use forms.Exceptions.{
  overflow_error, Exception, Result, ok, err, key_error, ◌>>=◌, committed, is_ok,
}
use forms.Webhooks.{RetryPolicy, DeliveryResult, network_error}
use forms.Ingestion.{Submission}
use forms.Models.{instant_limit, Instant, SubmissionRow, WebhookDelivery, Db}
use forms.Table.{find}
use forms.Storage.Submissions.{to_domain}
use forms.Storage.Deliveries.{claim_due_deliveries, complete_attempt, CompletedAttempt}
use forms.Delivery.{Wire, Client, build_payload, serialize_payload, deliver, unanswered}

-- A dictionary as the list of its entries.
abbrev pub Dict : Type 0 → Type 0
Dict A = List (String × A)

-- A later entry of a key replaces the earlier.
abbrev pub last_of : {A : Type 0} → Result A → Result A → Result A
last_of (ok a) earlier = ok a
last_of (err e) earlier = earlier

unfoldable pub get_item : {A : Type 0} → String → Dict A → Result A
get_item k [] = err key_error
get_item k ((name, a) ∷ rest) =
    last_of (get_item k rest) (if str_eq name k then ok a else err key_error)

-- The submission that each delivery names, for those that name one.
unfoldable pub carried : List WebhookDelivery → Dict String
carried [] = []
carried (job ∷ rest) = add job.submission_id (carried rest)
  where
    add : Option String → Dict String → Dict String
    add none entries = entries
    add (some s) entries = (job.id, s) ∷ entries

-- `rows[submission_id]`, of the rows that the query found.
abbrev pub row_of : Option SubmissionRow → Result Submission
row_of none = err key_error
row_of (some row) = ok (to_domain row)

unfoldable pub load_carried : Db → Dict String → Result (Dict Submission)
load_carried db [] = ok []
load_carried db ((job_id, s) ∷ rest) = do
  submission ← row_of (find (λ r. r.id) s db.submissions)
  entries ← load_carried db rest
  ok ((job_id, submission) ∷ entries)

unfoldable pub load_submissions : Db → List WebhookDelivery → Result (Dict Submission)
unfolding carried load_carried
load_submissions db deliveries = load_carried db (carried deliveries)

abbrev pub unexpected_failure : String
unexpected_failure = "could not send: the attempt failed unexpectedly, see the worker log"

abbrev pub or_unexpected : Result DeliveryResult → DeliveryResult
or_unexpected (ok result) = result
or_unexpected (err e) = unanswered network_error unexpected_failure

unfoldable pub attempt :
    Wire → Client → (deadline : ℕ) → WebhookDelivery → (body : List ℕ) → DeliveryResult
attempt wire client deadline job body =
    or_unexpected (deliver wire client job.destination_url job.signing_secret body deadline)

-- The bodies of a batch, each beside its job.
unfoldable pub bodies :
    Wire → Dict Submission → List WebhookDelivery → Result (List (WebhookDelivery × List ℕ))
bodies wire submissions [] = ok []
bodies wire submissions (job ∷ rest) = do
  submission ← get_item job.id submissions
  body ← serialize_payload wire.dumps (build_payload wire.rfc3339 submission)
  others ← bodies wire submissions rest
  ok ((job, body) ∷ others)

-- A rollback expires what the session has loaded, and a row that it holds is read again when it
-- is next used. No delivery is ever deleted, so the row is there.
unfoldable pub current_job : (expired : Bool) → Db → WebhookDelivery → WebhookDelivery
current_job false db job = job
current_job true db job = reread (find (λ r. r.id) job.id db.deliveries)
  where
    reread : Option WebhookDelivery → WebhookDelivery
    reread none = job
    reread (some row) = row

-- What else a tick depends on: tokens and identifiers that are drawn at random, and `meanwhile`,
-- what other processes do to the database before the tick's i-th transaction.
pub record Circumstances : Type 0 where
  pub mint : ℕ → String
  pub attempt_ids : ℕ → String
  pub meanwhile : ℕ → Db → Db
  pub client : Client
  pub wire : Wire

-- The loop that records the results: one that cannot be recorded is rolled back, and the loop goes
-- on with the next.
unfoldable pub record_each :
    Circumstances
    → (now : Instant) → RetryPolicy
    → ℕ
    → (expired : Bool) → List (WebhookDelivery × DeliveryResult)
    → Db
    → Db
unfolding current_job
record_each around now policy i expired [] db = db
record_each around now policy i expired ((job, result) ∷ rest) db =
    let found = around.meanwhile i db in
    let outcome =
      complete_attempt (around.attempt_ids i) (current_job expired found job) result now policy
        job.claim_token found in
    record_each around now policy (suc i) (expired || not (is_ok outcome)) rest
      (committed found outcome)

-- The requests of a batch, which run with no transaction open.
unfoldable pub attempts :
    Circumstances
    → (deadline : ℕ) → List (WebhookDelivery × List ℕ)
    → List (WebhookDelivery × DeliveryResult)
unfolding attempt
attempts around deadline = map (λ (sent : WebhookDelivery × List ℕ).
    (sent.0, attempt around.wire around.client deadline sent.0 sent.1))

-- The number that it returns and the database that it leaves. `seen` is the table as the scan
-- of the claim read it. The claim raises before it writes where the lease would end too late.
unfoldable pub process_batch :
    Circumstances
    → (now lease limit deadline : ℕ) → RetryPolicy
    → (seen : List WebhookDelivery) → Db
    → Result ℕ × Db
unfolding load_submissions bodies attempts record_each
process_batch around now lease limit deadline policy seen db =
    let (claimed, claims) = claim_due_deliveries around.mint now lease limit seen db in
    let loaded = around.meanwhile 0 claims in
    let sent = (do
      submissions ← load_submissions loaded claimed
      bodies around.wire submissions claimed) in
    if not (ltb (now + lease) instant_limit)
    then (err overflow_error, db)
    else if length claimed == 0
    then (ok 0, claims)
    else finish claimed loaded sent
  where
    finish : List WebhookDelivery → Db → Result (List (WebhookDelivery × List ℕ)) → Result ℕ × Db
    finish claimed loaded (err e) = (err e, loaded)
    finish claimed loaded (ok sent) = (
      ok (length claimed),
      record_each around now policy 1 false (attempts around deadline sent) loaded,
    )

-- One round of the worker's loop: what other processes have done since the last, the instant, and
-- the table as the scan read it.
pub record Tick : Type 0 where
  pub around : Circumstances
  pub since : Db → Db
  pub now : ℕ
  pub seen : List WebhookDelivery

-- Does the loop wait before it asks again? A round that raised counts as one that handled nothing.
abbrev pub waits : Result ℕ → Bool
waits (ok handled) = handled == 0
waits (err e) = true

-- The rounds that begin before the stop event is set, in order: which of them were followed by a
-- wait, and the database that they leave.
unfoldable pub run_worker :
    (lease limit deadline : ℕ) → RetryPolicy → List Tick → Db → List Bool × Db
unfolding process_batch
run_worker lease limit deadline policy [] db = ([], db)
run_worker lease limit deadline policy (tick ∷ rest) db =
    let (handled, after) =
      process_batch tick.around tick.now lease limit deadline policy tick.seen (tick.since db) in
    let (others, final) = run_worker lease limit deadline policy rest after in
    (waits handled ∷ others, final)
