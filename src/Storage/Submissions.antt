-- ===== src/Storage/Submissions.antt =====
-- Storing a submission: `store_submission` of hymical_forms/storage.py and what it calls, with the
-- constraints of hymical_forms/models.py that settle its races.
pub mod Outcomes
pub mod Idempotency
pub mod Retries
pub mod Errors
use forms.Prelude.{
  String, Bool, true, false, not, ◌&&◌, Option, none, some, ◌∷◌, str_eq, holds, opt_eq, is_some,
  if◌then◌else◌, any, first,
}
use forms.Exceptions.{
  Result, ok, err, Exception, integrity_error, idempotency_key_reused, refuse, ◌>>=◌, ◌>>◌,
}
use forms.Webhooks.{pending, is_terminal, WebhookTarget}
use forms.Ingestion.{Submission}
use forms.Models.{Instant, SubmissionRow, WebhookDelivery, Db}
use forms.Table.{find}
use forms.Storage.Deliveries.{is_dangling}

-- A dictionary of tuples and one of lists are the same list of pairs.
unfoldable pub from_domain : Submission → Option String → Option String → SubmissionRow
from_domain submission idempotency_key payload_fingerprint = record {
  id = submission.id;
  endpoint_id = submission.endpoint_id;
  received_at = submission.received_at;
  fields = submission.fields;
  idempotency_key = idempotency_key;
  payload_fingerprint = payload_fingerprint;
}

unfoldable pub to_domain : SubmissionRow → Submission
to_domain row = record {
  id = row.id;
  endpoint_id = row.endpoint_id;
  received_at = row.received_at;
  fields = row.fields;
}

pub record StoredSubmission : Type 0 where
  pub submission : Submission
  pub replayed : Bool
  pub delivery_queued : Bool

abbrev pub is_keyed : String → String → SubmissionRow → Bool
is_keyed endpoint_id key row = str_eq row.endpoint_id endpoint_id && holds row.idempotency_key key

unfoldable pub find_by_idempotency_key : Db → String → String → Option SubmissionRow
find_by_idempotency_key db endpoint_id key = first (is_keyed endpoint_id key) db.submissions

-- `(a IS NULL) = (b IS NULL)`
abbrev pub same_null : Option String → Option String → Bool
same_null none none = true
same_null (some a) (some b) = true
same_null _ _ = false

-- Is the pair (endpoint_id, idempotency_key) of a new row taken? NULL keys clash with nothing.
abbrev pub clashes : Option String → String → Db → Bool
clashes none endpoint_id db = false
clashes (some key) endpoint_id db = any (is_keyed endpoint_id key) db.submissions

-- INSERT of a submission, under the constraints of its table.
unfoldable pub insert_submission : SubmissionRow → Db → Result Db
insert_submission row db = do
  refuse (is_some (find (λ r. r.id) row.id db.submissions)) integrity_error
  refuse (not (is_some (find (λ r. r.id) row.endpoint_id db.endpoints))) integrity_error
  refuse (clashes row.idempotency_key row.endpoint_id db) integrity_error
  refuse (not (same_null row.idempotency_key row.payload_fingerprint)) integrity_error
  ok (record db { submissions = row ∷ db.submissions })

abbrev pub carries : String → WebhookDelivery → Bool
carries submission_id row = holds row.submission_id submission_id

abbrev pub owed_for : Option String → Db → Bool
owed_for none db = false
owed_for (some s) db = any (carries s) db.deliveries

-- INSERT of a delivery, under the constraints of its table.
unfoldable pub insert_delivery : WebhookDelivery → Db → Result Db
insert_delivery row db = do
  refuse (is_some (find (λ r. r.id) row.id db.deliveries)) integrity_error
  refuse (owed_for row.submission_id db) integrity_error
  refuse (is_dangling row.submission_id db) integrity_error
  refuse (not (is_some (find (λ r. r.id) row.endpoint_id db.endpoints))) integrity_error
  refuse
      (if is_terminal row.state then not (is_some row.completed_at) else is_some row.completed_at)
      integrity_error
  ok (record db { deliveries = row ∷ db.deliveries })

-- The delivery row that a submission owes.
unfoldable pub new_delivery : Submission → String → Instant → WebhookTarget → WebhookDelivery
new_delivery submission delivery_id now webhook = record {
  id = delivery_id;
  submission_id = some submission.id;
  endpoint_id = submission.endpoint_id;
  destination_url = webhook.url;
  signing_secret = webhook.secret;
  state = pending;
  attempts = 0;
  cycle_attempts = 0;
  next_attempt_at = now;
  claim_expires_at = none;
  claim_token = none;
  created_at = now;
  completed_at = none;
}

unfoldable pub insert_owed : Submission → String → Instant → Option WebhookTarget → Db → Result Db
insert_owed submission delivery_id now none db = ok db
insert_owed submission delivery_id now (some webhook) db =
    insert_delivery (new_delivery submission delivery_id now webhook) db

-- The rows that `_add_submission` stages, as the commit writes them: both or an error.
unfoldable pub add_submission :
    Submission
    → String
    → Instant
    → Option WebhookTarget
    → Option String
    → Option String
    → Db
    → Result Db
unfolding insert_owed
add_submission submission delivery_id now webhook idempotency_key payload_fingerprint db = do
  db' ← insert_submission (from_domain submission idempotency_key payload_fingerprint) db
  insert_owed submission delivery_id now webhook db'

-- `str(existing.idempotency_key)`
abbrev pub str : Option String → String
str none = "None"
str (some key) = key

unfoldable pub settle : SubmissionRow → Option String → Result Submission
settle existing payload_fingerprint = do
  refuse (not (opt_eq existing.payload_fingerprint payload_fingerprint))
      (idempotency_key_reused existing.endpoint_id (str existing.idempotency_key))
  ok (to_domain existing)

unfoldable pub replayed : Db → SubmissionRow → Option String → Result StoredSubmission
replayed db existing payload_fingerprint = do
  settled ← settle existing payload_fingerprint
  ok (record {
    submission = settled;
    replayed = true;
    delivery_queued = any (carries existing.id) db.deliveries;
  })

abbrev pub with_db {ℓ κ} : {A : Type ℓ} {B : Type κ} → B → Result A → Result (A × B)
with_db db (ok a) = ok (a, db)
with_db db (err e) = err e

unfoldable pub replay_found :
    Exception → Db → Option String → Option SubmissionRow → Result (StoredSubmission × Db)
replay_found e db payload_fingerprint none = err e
replay_found e db payload_fingerprint (some existing) =
    with_db db (replayed db existing payload_fingerprint)

-- The handler of the IntegrityError that a commit of keyed rows raised, after its rollback.
unfoldable pub recover :
    Submission → String → Option String → Db → Exception → Result (StoredSubmission × Db)
unfolding replay_found
recover submission key payload_fingerprint db integrity_error =
    replay_found integrity_error db payload_fingerprint
      (find_by_idempotency_key db submission.endpoint_id key)
recover submission key payload_fingerprint db e = err e

unfoldable pub created : Submission → Option WebhookTarget → Db → StoredSubmission × Db
created submission webhook db =
    (record { submission = submission; replayed = false; delivery_queued = is_some webhook }, db)

unfoldable pub commit_or_recover :
    Submission
    → String
    → Option String
    → Option WebhookTarget
    → Db
    → Result Db
    → Result (StoredSubmission × Db)
unfolding recover created
commit_or_recover submission key payload_fingerprint webhook db (ok db') =
    ok (created submission webhook db')
commit_or_recover submission key payload_fingerprint webhook db (err e) =
    recover submission key payload_fingerprint db e

-- The rest of a keyed store, after the lookup of the key.
unfoldable pub store_keyed :
    String
    → Submission
    → Instant
    → String
    → Option String
    → Option WebhookTarget
    → Db
    → Option SubmissionRow
    → Result (StoredSubmission × Db)
unfolding commit_or_recover
store_keyed delivery_id submission now key fingerprint webhook db (some existing) =
    with_db db (replayed db existing fingerprint)
store_keyed delivery_id submission now key fingerprint webhook db none =
    commit_or_recover submission key fingerprint webhook db
      (add_submission submission delivery_id now webhook (some key) fingerprint db)

-- `seen` is the database as the lookup of the key read it, `db` as the commit finds it: what
-- other requests committed in between is any difference of the two.
unfoldable pub store_submission :
    (delivery_id : String) (seen : Db)
    → Submission
    → Instant
    → Option String
    → Option String
    → Option WebhookTarget
    → Db
    → Result (StoredSubmission × Db)
unfolding created store_keyed
store_submission delivery_id seen submission now none fingerprint webhook db = do
  db' ← add_submission submission delivery_id now webhook none none db
  ok (created submission webhook db')
store_submission delivery_id seen submission now (some key) fingerprint webhook db =
    store_keyed delivery_id submission now key fingerprint webhook db
      (find_by_idempotency_key seen submission.endpoint_id key)
