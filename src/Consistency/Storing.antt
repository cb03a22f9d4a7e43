-- ===== src/Consistency/Storing.antt =====
-- Storing a submission keeps the store consistent: `store_submission` of hymical_forms/storage.py.
use forms.Prelude.{
  ◌≤◌, String, ◌≡◌, refl, sym, ap, subst, ◌∙◌, Bool, true, false, ◌&&◌, Option, none, some, List,
  [], ◌∷◌, arith, is_some, str_eq, eq_iff, filter, length, any, Bool-cases, inl, inr,
}
use mathlib.Core.Path.{subst₂}
use forms.Exceptions.{Result, committed}
use forms.Webhooks.{WebhookTarget}
use forms.Ingestion.{Submission}
use forms.Models.{Instant, WebhookDelivery, SubmissionRow, Db}
use forms.Table.{find, find-cons}
use forms.Storage.Submissions.{
  StoredSubmission, from_domain, new_delivery, store_submission, is_keyed, clashes,
}
use forms.Storage.Submissions.Outcomes.{
  with_owed, stored_fingerprint, IsAdded, Stored, kept, added, store_submission-Stored,
}
use forms.Storage.Deliveries.ClaimLoop.{lookup}
use forms.Consistency.{IsSound, IsConsistent, numbers, count_down}

-- The row of a key among the deliveries with an owed one.
pub owed_by_key {ℓ} :
    (P : String → WebhookDelivery → Type ℓ) (submission : Submission) (delivery_id : String)
    (now : Instant) (webhook : Option WebhookTarget) (t : List WebhookDelivery)
    → ((w : WebhookTarget)
        → webhook ≡ some w
        → P delivery_id (new_delivery submission delivery_id now w))
    → ((j : String) (r : WebhookDelivery) → lookup j t ≡ some r → P j r)
    → (j : String) (r : WebhookDelivery)
    → lookup j (with_owed submission delivery_id now webhook t) ≡ some r
    → P j r
unfolding new_delivery
owed_by_key P submission delivery_id now none t new old j r e = old j r e
owed_by_key P submission delivery_id now (some w) t new old j r e =
    let d = new_delivery submission delivery_id now w in
    let e' = sym (find-cons (λ (x : WebhookDelivery). x.id) j d t) ∙ e in
    elim (Bool-cases (str_eq delivery_id j)) [
      | inl here ↦
          let same : d ≡ r = cc (rw here at e') in
          subst (λ k. P k r) ((eq_iff delivery_id j).0 here)
            (subst (P delivery_id) same (new w refl))
      | inr other ↦ old j r (rw other at e')
    ]

owed_none :
    (submission : Submission) (delivery_id : String) (now : Instant)
    (webhook : Option WebhookTarget) (t : List WebhookDelivery) (j : String)
    → lookup j (with_owed submission delivery_id now webhook t) ≡ none
    → lookup j t ≡ none
owed_none submission delivery_id now none t j e = e
owed_none submission delivery_id now (some w) t j e =
    let d = new_delivery submission delivery_id now w in
    ground (arith, sym (find-cons (λ (x : WebhookDelivery). x.id) j d t) ∙ e)

new_delivery-IsSound :
    (submission : Submission) (delivery_id : String) (now : Instant) (w : WebhookTarget)
    → IsSound (new_delivery submission delivery_id now w)
unfolding new_delivery
new_delivery-IsSound submission delivery_id now w = ground arith

-- A key that clashes with no row is held by none.
none_keyed :
    (p : SubmissionRow → Bool) (t : List SubmissionRow) → any p t ≡ false → length (filter p t) ≡ 0
none_keyed p [] h = refl
none_keyed p (r ∷ t) h = ground (arith, none_keyed p t)

keyed_none :
    (e k e' k' : String) (t : List SubmissionRow)
    → any (is_keyed e' k') t ≡ false
    → (str_eq e' e && str_eq k' k) ≡ true
    → length (filter (is_keyed e k) t) ≡ 0
keyed_none e k e' k' t free same =
    let p : e' ≡ e = (eq_iff e' e).0 (ground (arith, same)) in
    let q : k' ≡ k = (eq_iff k' k).0 (ground (arith, same)) in
    none_keyed (is_keyed e k) t (subst₂ (λ x y. any (is_keyed x y) t ≡ false) p q free)

still_unique :
    (key fingerprint : Option String) (submission : Submission) (db : Db) (e k : String)
    → clashes key submission.endpoint_id db ≡ false
    → length (filter (is_keyed e k) db.submissions) ≤ 1
    → length (filter (is_keyed e k) (from_domain submission key fingerprint ∷ db.submissions)) ≤ 1
unfolding from_domain
still_unique none fingerprint submission db e k free old = ground arith
still_unique (some key) fingerprint submission db e k free old =
    ground (arith, keyed_none e k submission.endpoint_id key db.submissions free)

module _ (submission : Submission) (delivery_id : String) (now : Instant)
    (webhook : Option WebhookTarget) (key fingerprint : Option String) (db db' : Db)
    (add : IsAdded submission delivery_id now webhook key fingerprint db db')
    (h : IsConsistent db) where
  abbrev with_rows : Db
  with_rows = record db {
    submissions = from_domain submission key fingerprint ∷ db.submissions;
    deliveries = with_owed submission delivery_id now webhook db.deliveries;
  }

  still_linked :
      (s : String)
      → is_some (find (λ x. x.id) s db.submissions) ≡ true
      → is_some (find (λ x. x.id) s with_rows.submissions) ≡ true
  still_linked s e = ground (
    arith,
    find-cons (λ (x : SubmissionRow). x.id) s (from_domain submission key fingerprint)
        db.submissions,
  )

  new_linked :
      (s : String)
      → some submission.id ≡ some s
      → is_some (find (λ x. x.id) s with_rows.submissions) ≡ true
  unfolding from_domain
  new_linked s e =
      let here : submission.id ≡ s = cc in
      ground (
        arith,
        eq_iff submission.id s,
        here,
        find-cons (λ (x : SubmissionRow). x.id) s (from_domain submission key fingerprint)
            db.submissions,
      )

  with_rows_unique : (e k : String) → length (filter (is_keyed e k) with_rows.submissions) ≤ 1
  unfolding from_domain
  with_rows_unique e k = still_unique key fingerprint submission db e k add.unclaimed (h.unique e k)

  with_rows-IsConsistent : IsConsistent with_rows
  unfolding new_delivery
  with_rows-IsConsistent = record {
    sound =
        owed_by_key (λ j r. IsSound r) submission delivery_id now webhook db.deliveries
          (λ w e. new_delivery-IsSound submission delivery_id now w) h.sound;
    audit =
        owed_by_key (λ j r. numbers j db.attempts ≡ count_down r.attempts) submission delivery_id
          now webhook db.deliveries (λ w e. h.unborn delivery_id (add.unborn (ap is_some e)))
          h.audit;
    unborn = λ j e. h.unborn j (owed_none submission delivery_id now webhook db.deliveries j e);
    linked = λ j r s.
        owed_by_key
          (λ j x.
            x.submission_id ≡ some s → is_some (find (λ y. y.id) s with_rows.submissions) ≡ true)
          submission delivery_id now webhook db.deliveries (λ w e. new_linked s)
          (λ j x was link. still_linked s (h.linked j x s was link)) j r;
    unique = with_rows_unique;
  }

-- Storing a submission keeps the store consistent, whatever the lookup of its key had read, with
-- or without a key and a webhook; also where it answers with a replay, or raises.
pub store_submission-IsConsistent :
    (delivery_id : String) (seen : Db) (submission : Submission) (now : Instant)
    (key fingerprint : Option String) (webhook : Option WebhookTarget) (db : Db)
    → IsConsistent db
    → IsConsistent
        (committed db (store_submission delivery_id seen submission now key fingerprint webhook db))
store_submission-IsConsistent delivery_id seen submission now key fingerprint webhook db h =
    go (store_submission delivery_id seen submission now key fingerprint webhook db)
      (store_submission-Stored submission delivery_id now webhook db seen key fingerprint)
  where
    go :
        (r : Result (StoredSubmission × Db))
        → Stored submission delivery_id now webhook key fingerprint db r
        → IsConsistent (committed db r)
    go r (kept same replay) = subst IsConsistent (sym same) h
    go r (added db' add is) = subst IsConsistent (sym (ap (committed db) is ∙ add.is)) (
        with_rows-IsConsistent submission delivery_id now webhook key
          (stored_fingerprint key fingerprint) db db' add h)
