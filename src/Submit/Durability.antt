-- ===== src/Submit/Durability.antt =====
-- What an acknowledgement of `submit` of hymical_forms/api/submissions.py promises.
use forms.Prelude.{
  String, ◌≡◌, refl, sym, ap, subst, ◌∙◌, Bool, true, false, Option, none, some, eq_refl,
}
use forms.Exceptions.{Result, ok, err, committed}
use forms.Webhooks.{RetryPolicy, WebhookTarget, pending}
use forms.Models.{Instant, WebhookDelivery, SubmissionRow, Db}
use forms.Table.{find, find-cons}
use forms.Config.{Settings}
use forms.Ingestion.{Submission}
use forms.Storage.Submissions.{StoredSubmission, from_domain, new_delivery}
use forms.Storage.Submissions.Outcomes.{
  stored_fingerprint, IsAdded, Stored, kept, added, store_submission-Stored,
}
use forms.Storage.Deliveries.ClaimLoop.{lookup}
use forms.Consistency.{IsConsistent}
use forms.Consistency.Storing.{store_submission-IsConsistent}
use forms.System.{Reach}
use forms.System.Histories.{count-IsConsistent}
use forms.System.Durability.{IsOwed, IsLater-refl}
use forms.System.Durability.Lasting.{Reach-IsOwed}
use forms.Submit.Charging.{SameRecords}
use forms.Submit.Readings.{submission_of, resolve_endpoint-id}
use forms.Submit.Acceptances.{submit-IsAccepted}
use forms.Submit.{Library, Request, SubmissionAccepted, submit, acknowledge, webhook_of}

-- What a client was told is kept: the delivery and the submission that the handler wrote are
-- owed in a later database.
pub record IsPromised (delivery_id endpoint_id : String) (ack : SubmissionAccepted)
    (after later : Db) : Type 0 where
  pub delivery : WebhookDelivery
  pub submission : SubmissionRow
  pub queued : lookup delivery_id after.deliveries ≡ some delivery
  pub due : delivery.state ≡ pending
  pub written : find (λ x. x.id) ack.submission_id after.submissions ≡ some submission
  pub posted_to : submission.endpoint_id ≡ endpoint_id
  pub owed : IsOwed delivery_id delivery submission later

SameRecords-IsConsistent : (db db' : Db) → SameRecords db db' → IsConsistent db → IsConsistent db'
SameRecords-IsConsistent db db' same h =
    count-IsConsistent db db' (ap (λ d. d.deliveries) same) (ap (λ d. d.attempts) same)
      (ap (λ d. d.submissions) same) h

abbrev unwrapped {ℓ} : {A : Type ℓ} → A → Result A → A
unwrapped a (ok x) = x
unwrapped a (err e) = a

-- What a store that was answered as a new submission with a queued delivery has written.
module _ (s : Submission) (delivery_id : String) (now : Instant) (key : Option String)
    (db : Db) where
  added-IsPromised :
      (fingerprint : Option String) (w : WebhookTarget) (after : Db)
      → IsAdded s delivery_id now (some w) key fingerprint db after
      → IsPromised delivery_id s.endpoint_id
          (acknowledge (record { submission = s; replayed = false; delivery_queued = true }))
          after
          after
  unfolding new_delivery from_domain acknowledge
  added-IsPromised fingerprint w after add =
      let d = new_delivery s delivery_id now w in
      let x = from_domain s key fingerprint in
      let queued : lookup delivery_id after.deliveries ≡ some d =
        ap (λ (t : Db). lookup delivery_id t.deliveries) add.is
        ∙ find-cons (λ (r : WebhookDelivery). r.id) delivery_id d db.deliveries
        ∙ rw (eq_refl delivery_id) refl in
      let written : find (λ r. r.id) s.id after.submissions ≡ some x =
        ap (λ (t : Db). find (λ r. r.id) s.id t.submissions) add.is
        ∙ find-cons (λ (r : SubmissionRow). r.id) s.id x db.submissions
        ∙ rw (eq_refl s.id) refl in
      record {
        delivery = d;
        submission = x;
        queued = queued;
        due = refl;
        written = written;
        posted_to = refl;
        owed = record {
          row = d;
          stored = queued;
          later = IsLater-refl d;
          holds = λ p. (refl, written);
        };
      }

  Stored-IsPromised :
      (fingerprint : Option String) (webhook : Option WebhookTarget) (stored : StoredSubmission)
      (after : Db)
      → Stored s delivery_id now webhook key fingerprint db (ok (stored, after))
      → stored.replayed ≡ false
      → stored.delivery_queued ≡ true
      → IsPromised delivery_id s.endpoint_id (acknowledge stored) after after
  Stored-IsPromised fingerprint webhook stored after (kept same again) new queued = cc (again, new)
  Stored-IsPromised fingerprint none stored after (added db' add says) new queued =
      let e : stored.delivery_queued ≡ false =
        ap (λ r. (unwrapped {A = StoredSubmission × Db} (stored, after) r).0.delivery_queued)
          says in
      cc (e, queued)
  Stored-IsPromised fingerprint (some w) stored after (added db' add says) new queued =
      subst
        (λ (p : StoredSubmission × Db).
          IsPromised delivery_id s.endpoint_id (acknowledge p.0) p.1 p.1)
        (sym (ap (unwrapped (stored, after)) says))
        (added-IsPromised (stored_fingerprint key fingerprint) w db' add)

-- A request was acknowledged, in a consistent database, as a new submission whose delivery is
-- queued. Then the delivery and the submission that the acknowledgement names are stored, the
-- delivery pending; and whatever transactions follow, of any processes and in any order, sweeps
-- included, the delivery is still stored, with its endpoint, destination and secret and with no
-- less history; once delivered it stays delivered, and until then it names that submission, which
-- is stored as it was written.
pub submit-durable :
    (policy : RetryPolicy) (lib : Library) (settings : Settings) (request : Request) (sweeps : Bool)
    (seen : Db) (delivery_id submission_id : String) (now received_at : Instant)
    (endpoint_id : String) (db : Db) (ack : SubmissionAccepted) (after later : Db)
    → IsConsistent db
    → submit lib settings request sweeps seen delivery_id submission_id now received_at endpoint_id
        db
      ≡ (ok ack, after)
    → ack.idempotent_replay ≡ false
    → ack.queued ≡ true
    → Reach policy after later
    → IsPromised delivery_id endpoint_id ack after later
unfolding acknowledge
submit-durable policy lib settings request sweeps seen delivery_id submission_id now received_at
      endpoint_id db ack after later h done new queued history =
    let first =
      submit-IsAccepted lib settings request sweeps seen delivery_id submission_id now received_at
        ack after endpoint_id db done in
    let s = submission_of submission_id first.form.id received_at first.fields in
    let key = request.idempotency_key in
    let fingerprint = first.fingerprint in
    let webhook = webhook_of first.form.webhook_url first.form.webhook_secret in
    let start : IsConsistent after =
      subst (λ r. IsConsistent (committed first.before r)) first.keeps
        (store_submission-IsConsistent delivery_id seen s received_at key fingerprint webhook
          first.before (SameRecords-IsConsistent db first.before first.same h)) in
    let wrote =
      Stored-IsPromised s delivery_id received_at key first.before fingerprint webhook first.stored
        after
        (subst (Stored s delivery_id received_at webhook key fingerprint first.before) first.keeps (
          store_submission-Stored s delivery_id received_at webhook first.before seen key
            fingerprint))
        (ap (λ a. a.idempotent_replay) first.says ∙ new) (ap (λ a. a.queued) first.says ∙ queued) in
    record {
      delivery = wrote.delivery;
      submission = wrote.submission;
      queued = wrote.queued;
      due = wrote.due;
      written =
          ap (λ (a : SubmissionAccepted). find (λ x. x.id) a.submission_id after.submissions)
            (sym first.says)
          ∙ wrote.written;
      posted_to = wrote.posted_to ∙ resolve_endpoint-id endpoint_id first.before first.found;
      owed = (Reach-IsOwed delivery_id wrote.delivery wrote.submission history start wrote.owed).1;
    }
