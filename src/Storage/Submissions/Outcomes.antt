-- ===== src/Storage/Submissions/Outcomes.antt =====
-- What a commit of a submission writes: `_add_submission` and the commit of `store_submission` in
-- hymical_forms/storage.py.
use forms.Prelude.{
  String, ◌≡◌, refl, sym, ap, ◌∙◌, Bool, true, false, Option, none, some, List, ◌∷◌, arith, is_some,
  inl, inr,
}
use forms.Exceptions.{Result, ok, err, Exception, integrity_error, committed, Result-cases, ◌>>=◌}
use forms.Webhooks.{WebhookTarget}
use forms.Ingestion.{Submission}
use forms.Models.{Instant, WebhookDelivery, SubmissionRow, Db}
use forms.Table.{find}
use forms.Storage.Submissions.{
  StoredSubmission, insert_submission, insert_delivery, new_delivery, add_submission, from_domain,
  clashes, store_submission, insert_owed, find_by_idempotency_key, replayed, with_db,
  commit_or_recover, created, recover, replay_found, store_keyed, settle,
}
use forms.Storage.Deliveries.ClaimLoop.{lookup}

-- The deliveries with the one that a submission owes.
abbrev pub with_owed :
    Submission
    → String
    → Instant
    → Option WebhookTarget
    → List WebhookDelivery
    → List WebhookDelivery
with_owed submission delivery_id now none t = t
with_owed submission delivery_id now (some w) t = new_delivery submission delivery_id now w ∷ t

-- The rows of a submission and of the delivery that it owes were new, and are stored.
pub record IsAdded (submission : Submission) (delivery_id : String) (now : Instant)
    (webhook : Option WebhookTarget) (key fingerprint : Option String) (db db' : Db) : Type 0 where
  pub is : db' ≡ record db {
    submissions = from_domain submission key fingerprint ∷ db.submissions;
    deliveries = with_owed submission delivery_id now webhook db.deliveries;
  }
  pub fresh : find (λ r. r.id) submission.id db.submissions ≡ none
  pub unclaimed : clashes key submission.endpoint_id db ≡ false
  pub unborn : is_some webhook ≡ true → lookup delivery_id db.deliveries ≡ none

insert_submission-ok :
    (row : SubmissionRow) (db db' : Db)
    → insert_submission row db ≡ ok db'
    → (db' ≡ record db { submissions = row ∷ db.submissions })
      × (find (λ r. r.id) row.id db.submissions ≡ none)
      × (clashes row.idempotency_key row.endpoint_id db ≡ false)
unfolding insert_submission
insert_submission-ok row db db' h = ground arith

insert_delivery-ok :
    (row : WebhookDelivery) (db db' : Db)
    → insert_delivery row db ≡ ok db'
    → (db' ≡ record db { deliveries = row ∷ db.deliveries }) × (lookup row.id db.deliveries ≡ none)
unfolding insert_delivery
insert_delivery-ok row db db' h = ground arith

module _ (submission : Submission) (delivery_id : String) (now : Instant)
    (key fingerprint : Option String) (db : Db) where
  insert_owed-IsAdded :
      (webhook : Option WebhookTarget) (db1 db' : Db)
      → insert_submission (from_domain submission key fingerprint) db ≡ ok db1
      → insert_owed submission delivery_id now webhook db1 ≡ ok db'
      → IsAdded submission delivery_id now webhook key fingerprint db db'
  unfolding insert_owed from_domain new_delivery
  insert_owed-IsAdded none db1 db' first second =
      let (is, fresh, unclaimed) =
        insert_submission-ok (from_domain submission key fingerprint) db db1 first in
      record { is = cc (is, second); fresh = fresh; unclaimed = unclaimed; unborn = λ h. cc }
  insert_owed-IsAdded (some w) db1 db' first second =
      let (is, fresh, unclaimed) =
        insert_submission-ok (from_domain submission key fingerprint) db db1 first in
      let (is', unborn) =
        insert_delivery-ok (new_delivery submission delivery_id now w) db1 db' second in
      record {
        is =
            is'
            ∙ ap
                (λ (d : Db). record d {
                  deliveries = new_delivery submission delivery_id now w ∷ d.deliveries;
                })
                is;
        fresh = fresh;
        unclaimed = unclaimed;
        unborn = λ h. ap (λ (d : Db). lookup delivery_id d.deliveries) (sym is) ∙ unborn;
      }

  pub add_submission-IsAdded :
      (webhook : Option WebhookTarget) (db' : Db)
      → add_submission submission delivery_id now webhook key fingerprint db ≡ ok db'
      → IsAdded submission delivery_id now webhook key fingerprint db db'
  unfolding add_submission
  add_submission-IsAdded webhook db' done =
      elim (Result-cases (insert_submission (from_domain submission key fingerprint) db)) [
        | inl (db1, first) ↦ insert_owed-IsAdded webhook db1 db' first (rw first at done)
        | inr (e, fails) ↦ cc (rw fails at done)
      ]

-- Does a result answer with an earlier submission? An error answers with none.
abbrev pub is_replay : Result (StoredSubmission × Db) → Bool
is_replay (ok (stored, db)) = stored.replayed
is_replay (err e) = true

-- A store without a key writes no fingerprint.
abbrev pub stored_fingerprint : Option String → Option String → Option String
stored_fingerprint none fingerprint = none
stored_fingerprint (some key) fingerprint = fingerprint

-- The two ways in which a store ends: it leaves the database as it was, with a replay or an
-- error, or it adds the submission and the delivery that it owes.
pub data Stored (submission : Submission) (delivery_id : String) (now : Instant)
    (webhook : Option WebhookTarget) (key fingerprint : Option String) (db : Db)
    (r : Result (StoredSubmission × Db)) : Type 0 where
  kept :
      committed db r ≡ db
      → is_replay r ≡ true
      → Stored submission delivery_id now webhook key fingerprint db r
  added :
      (db' : Db)
      → IsAdded submission delivery_id now webhook key (stored_fingerprint key fingerprint) db db'
      → r
        ≡ ok (
          record { submission = submission; replayed = false; delivery_queued = is_some webhook },
          db',
        )
      → Stored submission delivery_id now webhook key fingerprint db r

with_db-kept :
    (db : Db) (existing : SubmissionRow) (fingerprint : Option String)
    → (committed db (with_db db (replayed db existing fingerprint)) ≡ db)
      × (is_replay (with_db db (replayed db existing fingerprint)) ≡ true)
unfolding replayed settle
with_db-kept db existing fingerprint = ground arith

replay_found-kept :
    (e : Exception) (db : Db) (fingerprint : Option String) (o : Option SubmissionRow)
    → (committed db (replay_found e db fingerprint o) ≡ db)
      × (is_replay (replay_found e db fingerprint o) ≡ true)
unfolding replay_found
replay_found-kept e db fingerprint none = (refl, refl)
replay_found-kept e db fingerprint (some existing) = with_db-kept db existing fingerprint

recover-kept :
    (submission : Submission) (key : String) (fingerprint : Option String) (db : Db) (e : Exception)
    → (committed db (recover submission key fingerprint db e) ≡ db)
      × (is_replay (recover submission key fingerprint db e) ≡ true)
unfolding recover
recover-kept submission key fingerprint db Exception.integrity_error =
    replay_found-kept integrity_error db fingerprint
      (find_by_idempotency_key db submission.endpoint_id key)
recover-kept submission key fingerprint db _ = (refl, refl)

module _ (submission : Submission) (delivery_id : String) (now : Instant)
    (webhook : Option WebhookTarget) (db : Db) where
  store_unkeyed-Stored :
      (fingerprint : Option String) (r : Result Db)
      → add_submission submission delivery_id now webhook none none db ≡ r
      → Stored submission delivery_id now webhook none fingerprint db
          (r >>= λ db'. ok (created submission webhook db'))
  unfolding created
  store_unkeyed-Stored fingerprint (ok db') e =
      added db' (add_submission-IsAdded submission delivery_id now none none db webhook db' e) refl
  store_unkeyed-Stored fingerprint (err x) e = kept refl refl

  commit_or_recover-Stored :
      (key : String) (fingerprint : Option String) (r : Result Db)
      → add_submission submission delivery_id now webhook (some key) fingerprint db ≡ r
      → Stored submission delivery_id now webhook
          (some key)
          fingerprint
          db
          (commit_or_recover submission key fingerprint webhook db r)
  unfolding commit_or_recover created
  commit_or_recover-Stored key fingerprint (ok db') e =
      added db'
        (add_submission-IsAdded submission delivery_id now (some key) fingerprint db webhook db' e)
        refl
  commit_or_recover-Stored key fingerprint (err x) e =
      let (same, replay) = recover-kept submission key fingerprint db x in kept same replay

  store_keyed-Stored :
      (key : String) (fingerprint : Option String) (o : Option SubmissionRow)
      → Stored submission delivery_id now webhook
          (some key)
          fingerprint
          db
          (store_keyed delivery_id submission now key fingerprint webhook db o)
  unfolding store_keyed
  store_keyed-Stored key fingerprint none =
      commit_or_recover-Stored key fingerprint
        (add_submission submission delivery_id now webhook (some key) fingerprint db) refl
  store_keyed-Stored key fingerprint (some existing) =
      let (same, replay) = with_db-kept db existing fingerprint in kept same replay

  pub store_submission-Stored :
      (seen : Db) (key fingerprint : Option String)
      → Stored submission delivery_id now webhook key fingerprint db
          (store_submission delivery_id seen submission now key fingerprint webhook db)
  unfolding store_submission
  store_submission-Stored seen none fingerprint =
      store_unkeyed-Stored fingerprint
        (add_submission submission delivery_id now webhook none none db) refl
  store_submission-Stored seen (some key) fingerprint =
      store_keyed-Stored key fingerprint (find_by_idempotency_key seen submission.endpoint_id key)
