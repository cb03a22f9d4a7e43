-- ===== src/Consistency/Sweeping.antt =====
-- A retention sweep keeps the store consistent: `delete_expired_submissions` of
-- hymical_forms/storage.py.
use forms.Prelude.{
  ℕ, zero, suc, ◌+◌, ◌≤◌, String, ◌≡◌, refl, sym, ap, subst, ◌∙◌, Bool, true, false, not, Option,
  none, some, List, [], ◌∷◌, map, arith, is_some, ltb, ◌==◌, elem, filter, length, Bool-cases,
  Option-cases, inl, inr,
}
use forms.Models.{Instant, WebhookDelivery, DeliveryAttempt, SubmissionRow, Db}
use forms.Retention.{is_protected}
use forms.Table.{find}
use forms.Storage.Submissions.{is_keyed}
use forms.Storage.Deliveries.ClaimLoop.{lookup}
use forms.Storage.Sweep.{
  still_needed, set_null, delete_submissions, expired_ids, sweep, delete_expired_submissions,
}
use forms.Storage.Sweep.Deletes.{
  unlink, find-undeleted, lookup-unlinked, still_needed-lookup, expired_ids-unneeded,
}
use forms.Consistency.{IsSound, IsConsistent, numbers, count_down}

pub unlinked_by_key :
    (P : WebhookDelivery → Type 0) (ids : List String) (t : List WebhookDelivery) (j : String)
    → ((d : WebhookDelivery) → lookup j t ≡ some d → P (unlink ids d))
    → (r : WebhookDelivery) → lookup j (map (unlink ids) t) ≡ some r
    → P r
unlinked_by_key P ids t j step r e =
    let e' = sym (lookup-unlinked ids j t) ∙ e in
    elim (Option-cases (lookup j t)) [
      | inl missing ↦ cc (rw missing at e')
      | inr (d, found) ↦
          let same : unlink ids d ≡ r = cc (rw found at e') in subst P same (step d found)
    ]

unlinked_none :
    (ids : List String) (t : List WebhookDelivery) (j : String)
    → lookup j (map (unlink ids) t) ≡ none
    → lookup j t ≡ none
unlinked_none ids t j e = ground (arith, lookup-unlinked ids j t)

numbers-unlinked :
    (ids : List String) (j : String) (t : List DeliveryAttempt)
    → numbers j
        (map (λ (a : DeliveryAttempt). record a { submission_id = set_null ids a.submission_id }) t)
      ≡ numbers j t
unfolding numbers
numbers-unlinked ids j [] = refl
numbers-unlinked ids j (a ∷ t) = ground (arith, numbers-unlinked ids j t)

length-filter-filter :
    (p q : SubmissionRow → Bool) (t : List SubmissionRow)
    → length (filter p (filter q t)) ≤ length (filter p t)
length-filter-filter p q [] = omega arith
length-filter-filter p q (r ∷ t) = ground (arith, length-filter-filter p q t)

unlink-IsSound :
    (ids : List String) (d : WebhookDelivery)
    → ((s : String) → d.submission_id ≡ some s → is_protected d.state ≡ true → elem s ids ≡ false)
    → IsSound d
    → IsSound (unlink ids d)
unfolding set_null
unlink-IsSound ids d safe h = record {
  completion = h.completion;
  token = h.token;
  lease = h.lease;
  budget = h.budget;
  carries = λ protected. elim (Option-cases d.submission_id) [
    | inl e ↦ cc (h.carries protected, e)
    | inr (s, e) ↦ rw (e, safe s e protected) refl
  ];
}

kept_link :
    (ids : List String) (o : Option String) (s : String)
    → set_null ids o ≡ some s
    → (o ≡ some s) × (elem s ids ≡ false)
unfolding set_null
kept_link ids none s h = cc
kept_link ids (some x) s h = elim (Bool-cases (elem x ids)) [
  | inl gone ↦ cc (rw gone at h)
  | inr stays ↦
      let e : x ≡ s = cc (rw stays at h) in (ap some e, subst (λ y. elem y ids ≡ false) e stays)
]

-- Deleting submissions that no delivery needs.
module _ (ids : List String) (db : Db)
    (unneeded : (s : String) → elem s ids ≡ true → still_needed db.deliveries s ≡ false)
    (h : IsConsistent db) where
  protected_kept :
      (j : String) (d : WebhookDelivery)
      → lookup j db.deliveries ≡ some d
      → (s : String) → d.submission_id ≡ some s
      → is_protected d.state ≡ true
      → elem s ids ≡ false
  protected_kept j d found s e protected = elim (Bool-cases (elem s ids)) [
    | inr out ↦ out
    | inl gone ↦ cc (unneeded s gone, still_needed-lookup j s db.deliveries d found e protected)
  ]

  delete_submissions-IsConsistent : IsConsistent (delete_submissions ids db)
  unfolding delete_submissions
  delete_submissions-IsConsistent = record {
    sound = λ j.
        unlinked_by_key IsSound ids db.deliveries j
          (λ d found. unlink-IsSound ids d (protected_kept j d found) (h.sound j d found));
    audit = λ j.
        unlinked_by_key
          (λ x. numbers j (delete_submissions ids db).attempts ≡ count_down x.attempts) ids
          db.deliveries j (λ d found. numbers-unlinked ids j db.attempts ∙ h.audit j d found);
    unborn = λ j e.
        numbers-unlinked ids j db.attempts ∙ h.unborn j (unlinked_none ids db.deliveries j e);
    unique = λ e k. omega (
      arith,
      length-filter-filter (is_keyed e k) (λ r. not (elem r.id ids)) db.submissions,
      h.unique e k,
    );
    linked = λ j r s e link.
        unlinked_by_key
          (λ x.
            x.submission_id ≡ some s
            → is_some (find (λ y. y.id) s (delete_submissions ids db).submissions) ≡ true)
          ids db.deliveries j
          (λ d found link'.
            let (old, out) = kept_link ids d.submission_id s link' in
            rw (find-undeleted ids s db.submissions, out) (h.linked j d s found old))
          r e link;
  }

sweep-IsConsistent :
    (before : Instant) (batch_size rounds removed : ℕ) (db : Db)
    → IsConsistent db
    → IsConsistent (sweep before batch_size rounds removed db).1
unfolding sweep
sweep-IsConsistent before n zero removed db h = h
sweep-IsConsistent before n (suc rounds) removed db h =
    let ids = expired_ids before n db in
    let db' = delete_submissions ids db in
    let h' : IsConsistent db' =
      delete_submissions-IsConsistent ids db (expired_ids-unneeded before n db) h in
    elim (Bool-cases (length ids == 0)) [
      | inl done ↦ rw done h
      | inr more ↦ elim (Bool-cases (ltb (length ids) n)) [
        | inl last ↦ rw (more, last) h'
        | inr full ↦
            rw (more, full)
              (sweep-IsConsistent before n rounds
                (removed + length (filter (λ r. elem r.id ids) db.submissions)) db' h')
      ]
    ]

-- A retention sweep, of any batch size and number of batches, keeps the store consistent: no
-- delivery that could still be attempted or replayed loses its submission.
pub delete_expired_submissions-IsConsistent :
    (before : Instant) (batch_size max_batches : ℕ) (db : Db)
    → IsConsistent db
    → IsConsistent (delete_expired_submissions before batch_size max_batches db).1
unfolding delete_expired_submissions
delete_expired_submissions-IsConsistent before n max_batches db h =
    sweep-IsConsistent before n max_batches 0 db h
