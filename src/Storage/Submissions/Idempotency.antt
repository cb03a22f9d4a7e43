-- ===== src/Storage/Submissions/Idempotency.antt =====
-- Retries and races of one idempotency key: `store_submission` of hymical_forms/storage.py.
use forms.Prelude.{
  String, ◌≡◌, refl, true, Option, none, some, List, [], ◌∷◌, arith, eq_refl, opt_eq, if◌then◌else◌,
  any, first, Bool-cases, ◌⊎◌, inl, inr,
}
use forms.Exceptions.{ok, err, Exception, integrity_error, idempotency_key_reused}
use forms.Webhooks.{WebhookTarget}
use forms.Ingestion.{Submission}
use forms.Models.{Instant, WebhookDelivery, SubmissionRow, Db}
use forms.Storage.Submissions.{
  insert_submission, insert_delivery, add_submission, from_domain, clashes, carries, is_keyed, str,
  store_submission, find_by_idempotency_key, replayed, recover, settle, to_domain,
}
use forms.Storage.Submissions.Outcomes.{IsAdded}

pub opt_eq_refl : (o : Option String) → opt_eq o o ≡ true
opt_eq_refl none = refl
opt_eq_refl (some a) = eq_refl a

-- Every exception of the constraints is an IntegrityError.
insert_submission_fails :
    (row : SubmissionRow) (db : Db) (e : Exception)
    → insert_submission row db ≡ err e
    → e ≡ integrity_error
unfolding insert_submission
insert_submission_fails row db e h = ground arith

insert_delivery_fails :
    (row : WebhookDelivery) (db : Db) (e : Exception)
    → insert_delivery row db ≡ err e
    → e ≡ integrity_error
unfolding insert_delivery
insert_delivery_fails row db e h = ground arith

-- A key that is taken makes the insert of a submission fail.
clash_fails :
    (row : SubmissionRow) (db : Db)
    → clashes row.idempotency_key row.endpoint_id db ≡ true
    → insert_submission row db ≡ err integrity_error
unfolding insert_submission
clash_fails row db h = ground arith

-- The row that a key finds clashes with a new one.
find-clashes :
    (key : String) (endpoint_id : String) (db : Db) (row : SubmissionRow)
    → find_by_idempotency_key db endpoint_id key ≡ some row
    → clashes (some key) endpoint_id db ≡ true
unfolding find_by_idempotency_key
find-clashes key endpoint_id db row h = go db.submissions h
  where
    go :
        (t : List SubmissionRow)
        → first (is_keyed endpoint_id key) t ≡ some row
        → any (is_keyed endpoint_id key) t ≡ true
    go [] e = cc
    go (x ∷ t) e = ground (arith, go t)

-- Whether the lookup of the key saw the earlier submission or not, a keyed store on a database
-- that has it answers for it.
module _ (delivery_id : String) (seen : Db) (submission : Submission) (now : Instant) (key : String)
    (fingerprint : Option String) (webhook : Option WebhookTarget) (db : Db) (row : SubmissionRow)
    (there : find_by_idempotency_key db submission.endpoint_id key ≡ some row)
    (saw : (find_by_idempotency_key seen submission.endpoint_id key ≡ none)
      ⊎ (find_by_idempotency_key seen submission.endpoint_id key ≡ some row)) where
  lost_race :
      add_submission submission delivery_id now webhook (some key) fingerprint db
      ≡ err integrity_error
  unfolding add_submission from_domain
  lost_race =
      rw
        (clash_fails (from_domain submission (some key) fingerprint) db
          (unfold from_domain in find-clashes key submission.endpoint_id db row there))
        refl

  -- When the key names a stored submission, whether the lookup had seen it or the unique
  -- constraint found it at the commit, the store changes nothing and answers for that submission:
  -- a replay of it, with the delivery that it owes, when the content is the same, and an error
  -- that the key was used for other content when it is not.
  pub store_submission-taken :
      store_submission delivery_id seen submission now (some key) fingerprint webhook db ≡ (
        if opt_eq row.payload_fingerprint fingerprint
        then ok (
          record {
            submission = to_domain row;
            replayed = true;
            delivery_queued = any (carries row.id) db.deliveries;
          },
          db,
        )
        else err (idempotency_key_reused row.endpoint_id (str row.idempotency_key)))
  unfolding store_submission recover replayed settle
  store_submission-taken = elim saw [
    | inl unseen ↦ elim (Bool-cases (opt_eq row.payload_fingerprint fingerprint)) [
      | inl same ↦ rw (unseen, lost_race, there, same) refl
      | inr other ↦ rw (unseen, lost_race, there, other) refl
    ]
    | inr found ↦ elim (Bool-cases (opt_eq row.payload_fingerprint fingerprint)) [
      | inl same ↦ rw (found, same) refl
      | inr other ↦ rw (found, other) refl
    ]
  ]

pub added_found :
    (submission : Submission) (delivery_id : String) (now : Instant)
    (webhook : Option WebhookTarget) (key : String) (fingerprint : Option String) (db db' : Db)
    → IsAdded submission delivery_id now webhook (some key) fingerprint db db'
    → find_by_idempotency_key db' submission.endpoint_id key
      ≡ some (from_domain submission (some key) fingerprint)
unfolding find_by_idempotency_key from_domain
added_found submission delivery_id now webhook key fingerprint db db' add =
    rw (add.is, eq_refl submission.endpoint_id, eq_refl key) refl
