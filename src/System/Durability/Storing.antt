-- ===== src/System/Durability/Storing.antt =====
-- A store of another submission keeps a delivery and its submission.
use forms.Prelude.{
  refl, String, ◌≡◌, sym, ap, subst, ◌∙◌, false, true, is_some, Option, none, some, List, ◌∷◌,
  str_eq, eq_iff, Bool-cases, inl, inr,
}
use forms.Exceptions.{Result, committed}
use forms.Webhooks.{WebhookTarget}
use forms.Ingestion.{Submission}
use forms.Models.{Instant, WebhookDelivery, SubmissionRow, Db}
use forms.Table.{find, find-cons}
use forms.Storage.Submissions.{StoredSubmission, from_domain, new_delivery, store_submission}
use forms.Storage.Submissions.Outcomes.{
  with_owed, stored_fingerprint, IsAdded, Stored, kept, added, store_submission-Stored,
}
use forms.Storage.Deliveries.ClaimLoop.{lookup}
use forms.System.Durability.{IsOwed, same_row}

-- A key that is missing is not one that is there.
missing_other {ℓ} :
    {A : Type ℓ} (key : A → String) (i k : String) (t : List A) (r : A)
    → find key i t ≡ none
    → find key k t ≡ some r
    → str_eq i k ≡ false
missing_other key i k t r missing found = elim (Bool-cases (str_eq i k)) [
  | inr other ↦ other
  | inl same ↦ let e : i ≡ k = (eq_iff i k).0 same in cc (missing, found, e)
]

lookup-with_owed :
    (submission : Submission) (delivery_id : String) (now : Instant)
    (webhook : Option WebhookTarget) (t : List WebhookDelivery) (j : String) (r : WebhookDelivery)
    → (is_some webhook ≡ true → lookup delivery_id t ≡ none)
    → lookup j t ≡ some r
    → lookup j (with_owed submission delivery_id now webhook t) ≡ lookup j t
unfolding new_delivery
lookup-with_owed submission delivery_id now none t j r unborn found = refl
lookup-with_owed submission delivery_id now (some w) t j r unborn found =
    let d = new_delivery submission delivery_id now w in
    let other = missing_other (λ y. y.id) delivery_id j t r (unborn refl) found in
    find-cons (λ (y : WebhookDelivery). y.id) j d t ∙ rw other refl

find-from_domain :
    (submission : Submission) (key fingerprint : Option String) (t : List SubmissionRow)
    (x : SubmissionRow)
    → find (λ s. s.id) submission.id t ≡ none
    → find (λ s. s.id) x.id t ≡ some x
    → find (λ s. s.id) x.id (from_domain submission key fingerprint ∷ t) ≡ some x
unfolding from_domain
find-from_domain submission key fingerprint t x fresh found =
    let row = from_domain submission key fingerprint in
    let other = missing_other (λ y. y.id) submission.id x.id t x fresh found in
    find-cons (λ (y : SubmissionRow). y.id) x.id row t ∙ rw other found

module _ (j : String) (a : WebhookDelivery) (x : SubmissionRow) (db : Db)
    (o : IsOwed j a x db) where
  added-IsOwed :
      (submission : Submission) (delivery_id : String) (now : Instant)
      (webhook : Option WebhookTarget) (key fingerprint : Option String) (db' : Db)
      → IsAdded submission delivery_id now webhook key fingerprint db db'
      → IsOwed j a x db'
  added-IsOwed submission delivery_id now webhook key fingerprint db' add =
      subst (IsOwed j a x) (sym add.is) (
        same_row j a x o
          (lookup-with_owed submission delivery_id now webhook db.deliveries j o.row add.unborn
            o.stored)
          (λ (named, there).
            (named, find-from_domain submission key fingerprint db.submissions x add.fresh there)))

  pub store_submission-IsOwed :
      (delivery_id : String) (seen : Db) (submission : Submission) (now : Instant)
      (key fingerprint : Option String) (webhook : Option WebhookTarget)
      → IsOwed j a x (
          committed db
            (store_submission delivery_id seen submission now key fingerprint webhook db))
  store_submission-IsOwed delivery_id seen submission now key fingerprint webhook =
      go (store_submission delivery_id seen submission now key fingerprint webhook db)
        (store_submission-Stored submission delivery_id now webhook db seen key fingerprint)
    where
      go :
          (r : Result (StoredSubmission × Db))
          → Stored submission delivery_id now webhook key fingerprint db r
          → IsOwed j a x (committed db r)
      go r (kept same again) = subst (IsOwed j a x) (sym same) o
      go r (added db' add is) = subst (IsOwed j a x) (sym (ap (committed db) is)) (
          added-IsOwed submission delivery_id now webhook key (stored_fingerprint key fingerprint)
            db' add)
