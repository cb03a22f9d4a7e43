-- ===== src/Submit/Acceptances.antt =====
-- What is known of a public submission that was accepted: `submit` of
-- hymical_forms/api/submissions.py.
use forms.Prelude.{refl, ℕ, String, ◌≡◌, sym, ap, ◌∙◌, Bool, Option, List}
use forms.Exceptions.{err, Result, ok, committed}
use forms.Webhooks.{WebhookTarget}
use forms.Models.{Instant, Fields, Endpoint, Db}
use forms.Config.{Settings}
use forms.Ingestion.{Submission}
use forms.Storage.Submissions.{StoredSubmission, store_submission}
use forms.Storage.Submissions.Outcomes.{store_submission-Stored, Stored, kept, added}
use forms.Submit.Charging.{
  charge_address-SameRecords, SameRecords, SameRecords-trans, charge_endpoint-SameRecords,
}
use forms.Submit.Readings.{
  bind-ok, and_then-ok, with_state-ok, answered-ok, submission_of, read_submission-again,
  resolve_endpoint-same,
}
use forms.Submit.{
  charge_address, routed, submit, Library, Request, SubmissionAccepted, charge_endpoint,
  read_submission, store_read, acknowledge, accept, resolve_endpoint, webhook_of, fingerprint_of,
}

stored-endpoints :
    {submission : Submission} {delivery_id : String} {now : Instant}
    {webhook : Option WebhookTarget} {key fingerprint : Option String} {db : Db}
    (r : Result (StoredSubmission × Db))
    → Stored submission delivery_id now webhook key fingerprint db r
    → (committed db r).endpoints ≡ db.endpoints
stored-endpoints {db = db} r (kept same replay) = ap (λ d. d.endpoints) same
stored-endpoints {db = db} r (added db' add is) =
    ap (λ d. d.endpoints) (ap (committed db) is ∙ add.is)

module _ (lib : Library) (settings : Settings) (request : Request) where
  -- The part of the handler that stores what was read.
  abbrev pub kept_as :
      (seen : Db) (delivery_id : String)
      → Endpoint
      → (key fingerprint : Option String) → Submission
      → Db
      → Result (StoredSubmission × Db)
  kept_as seen delivery_id form key fingerprint s db =
      store_submission delivery_id seen s s.received_at key fingerprint
        (webhook_of form.webhook_url form.webhook_secret) db

  -- What is known of a request that was accepted.
  pub record IsAccepted (seen : Db) (delivery_id submission_id : String) (received_at : Instant)
      (endpoint_id : String) (db : Db) (ack : SubmissionAccepted) (after : Db) : Type 0 where
    pub form : Endpoint
    pub before : Db
    pub same : SameRecords db before
    pub found : resolve_endpoint endpoint_id before ≡ ok form
    pub fields : Fields
    pub again :
        (peer forwarded : Option (List ℕ)) (id : String) (later : Instant)
        → read_submission settings
            (record request { peer = peer; forwarded_for = forwarded })
            form
            id
            later
          ≡ ok (request.idempotency_key, submission_of id form.id later fields)
    pub fingerprint : Option String
    pub printed : fingerprint_of lib request.idempotency_key fields ≡ ok fingerprint
    pub stored : StoredSubmission
    pub keeps :
        kept_as seen delivery_id form request.idempotency_key fingerprint
          (submission_of submission_id form.id received_at fields)
          before
        ≡ ok (stored, after)
    pub says : acknowledge stored ≡ ack
    pub endpoints : after.endpoints ≡ before.endpoints

  module _ (sweeps : Bool) (seen : Db) (delivery_id submission_id : String)
      (now received_at : Instant) (ack : SubmissionAccepted) (after : Db) where
    accept-IsAccepted :
        (endpoint_id : String) (form : Endpoint) (db before : Db)
        → SameRecords db before
        → resolve_endpoint endpoint_id before ≡ ok form
        → accept lib settings request sweeps seen delivery_id submission_id now received_at form
            before
          ≡ (ok ack, after)
        → IsAccepted seen delivery_id submission_id received_at endpoint_id db ack after
    unfolding accept store_read
    accept-IsAccepted endpoint_id form db before same found h =
        let charge = charge_endpoint sweeps settings form.id now before in
        let unchanged = charge_endpoint-SameRecords sweeps settings form.id now before in
        let ((k, s), stores, read) =
          bind-ok (read_submission settings request form submission_id received_at) _
            (with_state-ok charge.1 _ (and_then-ok charge _ h)) in
        let (fields, key, is, again) =
          read_submission-again settings request form submission_id received_at read in
        let (fingerprint, answers, printed) = bind-ok (fingerprint_of lib k s.fields) _ stores in
        let (stored, keeps, says) =
          answered-ok (kept_as seen delivery_id form k fingerprint s charge.1) answers in
        record {
          form = form;
          before = charge.1;
          same = SameRecords-trans db before charge.1 same unchanged;
          found =
              resolve_endpoint-same endpoint_id before charge.1 (ap (λ d. d.endpoints) unchanged)
              ∙ found;
          fields = fields;
          again = λ peer forwarded id later.
              again peer forwarded id later
              ∙ ap (λ key. ok (key, submission_of id form.id later fields)) key;
          fingerprint = fingerprint;
          printed =
              ap (λ (x : Option String × Submission). fingerprint_of lib x.0 x.1.fields)
                (λ i. (sym key i, is i))
              ∙ printed;
          stored = stored;
          keeps =
              ap
                (λ (x : Option String × Submission).
                  kept_as seen delivery_id form x.0 fingerprint x.1 charge.1)
                (λ i. (sym key i, is i))
              ∙ keeps;
          says = says;
          endpoints =
              sym (ap (λ r. (committed charge.1 r).endpoints) keeps)
              ∙ stored-endpoints (kept_as seen delivery_id form k fingerprint s charge.1) (
                  store_submission-Stored s delivery_id s.received_at
                    (webhook_of form.webhook_url form.webhook_secret) charge.1 seen k fingerprint);
        }

    routed-IsAccepted :
        (endpoint_id : String) (db before : Db) (found : Result Endpoint)
        → SameRecords db before
        → resolve_endpoint endpoint_id before ≡ found
        → routed lib settings request sweeps seen delivery_id submission_id now received_at before
            found
          ≡ (ok ack, after)
        → IsAccepted seen delivery_id submission_id received_at endpoint_id db ack after
    routed-IsAccepted endpoint_id db before (ok form) same is h =
        accept-IsAccepted endpoint_id form db before same is h
    routed-IsAccepted endpoint_id db before (err e) same is h = cc

    pub submit-IsAccepted :
        (endpoint_id : String) (db : Db)
        → submit lib settings request sweeps seen delivery_id submission_id now received_at
            endpoint_id db
          ≡ (ok ack, after)
        → IsAccepted seen delivery_id submission_id received_at endpoint_id db ack after
    unfolding submit
    submit-IsAccepted endpoint_id db h =
        let charge = charge_address lib settings request now db in
        routed-IsAccepted endpoint_id db charge.1 (resolve_endpoint endpoint_id charge.1)
          (charge_address-SameRecords lib settings request now db) refl (and_then-ok charge _ h)
