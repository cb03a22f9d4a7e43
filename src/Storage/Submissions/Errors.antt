-- ===== src/Storage/Submissions/Errors.antt =====
-- What a store raises: `store_submission` of hymical_forms/storage.py.
use forms.Prelude.{String, ◌≡◌, Bool, true, Option, none, some}
use forms.Exceptions.{Exception, Result, ok, err, integrity_error, idempotency_key_reused}
use forms.Exceptions.Raises.{Raises, returns, raises, raising, bind-Raises}
use forms.Webhooks.{WebhookTarget}
use forms.Ingestion.{Submission}
use forms.Models.{Instant, SubmissionRow, WebhookDelivery, Db}
use forms.Storage.Submissions.{
  insert_submission, insert_delivery, insert_owed, from_domain, new_delivery, add_submission,
  settle, replayed, replay_found, recover, commit_or_recover, created, store_keyed,
  store_submission, with_db, find_by_idempotency_key,
}

module _ (p : Exception → Bool) (broken : p integrity_error ≡ true)
    (reused : (endpoint_id key : String) → p (idempotency_key_reused endpoint_id key) ≡ true) where
  insert_submission-Raises : (row : SubmissionRow) (db : Db) → Raises p (insert_submission row db)
  unfolding insert_submission
  insert_submission-Raises row db = search (raising, broken)

  insert_delivery-Raises : (row : WebhookDelivery) (db : Db) → Raises p (insert_delivery row db)
  unfolding insert_delivery
  insert_delivery-Raises row db = search (raising, broken) depth 8

  insert_owed-Raises :
      (submission : Submission) (delivery_id : String) (now : Instant)
      (webhook : Option WebhookTarget) (db : Db)
      → Raises p (insert_owed submission delivery_id now webhook db)
  unfolding insert_owed
  insert_owed-Raises submission delivery_id now none db = returns db
  insert_owed-Raises submission delivery_id now (some w) db =
      insert_delivery-Raises (new_delivery submission delivery_id now w) db

  add_submission-Raises :
      (submission : Submission) (delivery_id : String) (now : Instant)
      (webhook : Option WebhookTarget) (key fingerprint : Option String) (db : Db)
      → Raises p (add_submission submission delivery_id now webhook key fingerprint db)
  unfolding add_submission
  add_submission-Raises submission delivery_id now webhook key fingerprint db =
      bind-Raises p (insert_submission (from_domain submission key fingerprint) db) _
        (insert_submission-Raises (from_domain submission key fingerprint) db)
        (λ db'. insert_owed-Raises submission delivery_id now webhook db')

  with_db-Raises {ℓ} : {A : Type ℓ} (db : Db) (r : Result A) → Raises p r → Raises p (with_db db r)
  with_db-Raises db (ok a) h = returns (a, db)
  with_db-Raises db (err e) (raises _ h) = raises e h

  replayed-Raises :
      (db : Db) (existing : SubmissionRow) (fingerprint : Option String)
      → Raises p (replayed db existing fingerprint)
  unfolding replayed settle
  replayed-Raises db existing fingerprint = search (raising, reused)

  recover-Raises :
      (submission : Submission) (key : String) (fingerprint : Option String) (db : Db)
      (e : Exception)
      → p e ≡ true
      → Raises p (recover submission key fingerprint db e)
  unfolding recover replay_found
  recover-Raises submission key fingerprint db Exception.integrity_error h =
      found (find_by_idempotency_key db submission.endpoint_id key)
    where
      found : (o : Option SubmissionRow) → Raises p (replay_found integrity_error db fingerprint o)
      found none = raises integrity_error broken
      found (some existing) =
          with_db-Raises db (replayed db existing fingerprint)
            (replayed-Raises db existing fingerprint)
  recover-Raises submission key fingerprint db e h = raises e h

  commit_or_recover-Raises :
      (submission : Submission) (key : String) (fingerprint : Option String)
      (webhook : Option WebhookTarget) (db : Db) (r : Result Db)
      → Raises p r
      → Raises p (commit_or_recover submission key fingerprint webhook db r)
  unfolding commit_or_recover
  commit_or_recover-Raises submission key fingerprint webhook db (ok db') h =
      returns (created submission webhook db')
  commit_or_recover-Raises submission key fingerprint webhook db (err e) (raises _ h) =
      recover-Raises submission key fingerprint db e h

  -- A store raises only an error of the database's constraints, or that a key is reused.
  pub store_submission-Raises :
      (delivery_id : String) (seen : Db) (submission : Submission) (now : Instant)
      (key fingerprint : Option String) (webhook : Option WebhookTarget) (db : Db)
      → Raises p (store_submission delivery_id seen submission now key fingerprint webhook db)
  unfolding store_submission store_keyed
  store_submission-Raises delivery_id seen submission now none fingerprint webhook db =
      bind-Raises p (add_submission submission delivery_id now webhook none none db) _
        (add_submission-Raises submission delivery_id now webhook none none db)
        (λ db'. returns (created submission webhook db'))
  store_submission-Raises delivery_id seen submission now (some key) fingerprint webhook db =
      keyed (find_by_idempotency_key seen submission.endpoint_id key)
    where
      keyed :
          (o : Option SubmissionRow)
          → Raises p (store_keyed delivery_id submission now key fingerprint webhook db o)
      keyed none =
          commit_or_recover-Raises submission key fingerprint webhook db
            (add_submission submission delivery_id now webhook (some key) fingerprint db)
            (add_submission-Raises submission delivery_id now webhook (some key) fingerprint db)
      keyed (some existing) =
          with_db-Raises db (replayed db existing fingerprint)
            (replayed-Raises db existing fingerprint)
