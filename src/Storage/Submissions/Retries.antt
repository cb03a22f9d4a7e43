-- ===== src/Storage/Submissions/Retries.antt =====
-- A client that retries, and two requests that race, with one idempotency key: `store_submission`
-- of hymical_forms/storage.py.
use forms.Prelude.{
  String, ◌≡◌, refl, sym, ap, subst, ◌∙◌, true, false, Option, none, some, List, is_some, eq_refl,
  any, ◌⊎◌, inl, inr,
}
use forms.Exceptions.{Result, ok, value_or}
use forms.Webhooks.{WebhookTarget}
use forms.Ingestion.{Submission}
use forms.Models.{Instant, WebhookDelivery, Db}
use forms.Storage.Submissions.{
  StoredSubmission, from_domain, carries, store_submission, find_by_idempotency_key, to_domain,
  new_delivery,
}
use forms.Storage.Submissions.Outcomes.{
  with_owed, Stored, kept, added, is_replay, store_submission-Stored,
}
use forms.Storage.Submissions.Idempotency.{opt_eq_refl, added_found, store_submission-taken}

owed_carries :
    (submission : Submission) (delivery_id : String) (now : Instant)
    (webhook : Option WebhookTarget) (t : List WebhookDelivery)
    → any (carries submission.id) t ≡ false
    → any (carries submission.id) (with_owed submission delivery_id now webhook t) ≡ is_some webhook
unfolding new_delivery
owed_carries submission delivery_id now none t h = h
owed_carries submission delivery_id now (some w) t h = rw (eq_refl submission.id) refl

-- What is known of a first request that stored its submission.
pub record IsFirst (submission : Submission) (key : String) (fingerprint : Option String)
    (webhook : Option WebhookTarget) (s1 : StoredSubmission) (db1 : Db) : Type 0 where
  pub row :
      find_by_idempotency_key db1 submission.endpoint_id key
      ≡ some (from_domain submission (some key) fingerprint)
  pub owes : any (carries submission.id) db1.deliveries ≡ is_some webhook
  pub answer :
      s1 ≡ record { submission = submission; replayed = false; delivery_queued = is_some webhook }

module _ (delivery_id : String) (seen : Db) (submission : Submission) (now : Instant) (key : String)
    (fingerprint : Option String) (webhook : Option WebhookTarget) (db : Db)
    (unborn : any (carries submission.id) db.deliveries ≡ false) (s1 : StoredSubmission) (db1 : Db)
    (new : s1.replayed ≡ false) where
  pub IsFirst-of :
      (r : Result (StoredSubmission × Db))
      → Stored submission delivery_id now webhook (some key) fingerprint db r
      → r ≡ ok (s1, db1)
      → IsFirst submission key fingerprint webhook s1 db1
  IsFirst-of r (kept same replay) is = cc (ap is_replay is, replay, new)
  IsFirst-of r (added db' add e) is =
      let p = ap (value_or (s1, db1)) (sym e ∙ is) in
      let same : db' ≡ db1 = ap (λ q. q.1) p in
      record {
        row =
            subst
              (λ d.
                find_by_idempotency_key d submission.endpoint_id key
                ≡ some (from_domain submission (some key) fingerprint))
              same (added_found submission delivery_id now webhook key fingerprint db db' add);
        owes =
            subst (λ d. any (carries submission.id) d.deliveries ≡ is_some webhook) same
              (ap (λ (d : Db). any (carries submission.id) d.deliveries) add.is
                ∙ owed_carries submission delivery_id now webhook db.deliveries unborn);
        answer = sym (ap (λ q. q.0) p);
      }

  -- A client that stored a submission with a key and sends the same content again, and a request
  -- that raced it and committed second (so that its lookup saw no such key), are answered with
  -- the submission that was stored first and whether a delivery is owed for it, and change nothing.
  pub store_submission_retry :
      (delivery_id' : String) (seen' : Db) (again : Submission) (later : Instant)
      (webhook' : Option WebhookTarget)
      → again.endpoint_id ≡ submission.endpoint_id
      → (find_by_idempotency_key seen' again.endpoint_id key ≡ none) ⊎ (seen' ≡ db1)
      → store_submission delivery_id seen submission now (some key) fingerprint webhook db
        ≡ ok (s1, db1)
      → store_submission delivery_id' seen' again later (some key) fingerprint webhook' db1
        ≡ ok (
          record { submission = submission; replayed = true; delivery_queued = is_some webhook },
          db1,
        )
  unfolding from_domain to_domain
  store_submission_retry delivery_id' seen' again later webhook' same_endpoint saw done =
      let f =
        IsFirst-of
          (store_submission delivery_id seen submission now (some key) fingerprint webhook db)
          (store_submission-Stored submission delivery_id now webhook db seen (some key)
            fingerprint)
          done in
      let there : find_by_idempotency_key db1 again.endpoint_id key
          ≡ some (from_domain submission (some key) fingerprint) =
        rw same_endpoint f.row in
      store_submission-taken delivery_id' seen' again later key fingerprint webhook' db1
        (from_domain submission (some key) fingerprint) there
        (elim saw [
          | inl unseen ↦ inl unseen
          | inr same ↦ inr (ap (λ d. find_by_idempotency_key d again.endpoint_id key) same ∙ there)
        ])
      ∙ rw (opt_eq_refl fingerprint, f.owes) refl
