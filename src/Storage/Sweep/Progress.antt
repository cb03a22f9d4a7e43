-- ===== src/Storage/Sweep/Progress.antt =====
-- A retention sweep ends because nothing is left, or at its ceiling: `delete_expired_submissions`
-- of hymical_forms/storage.py.
use forms.Prelude.{
  ℕ, zero, suc, ◌+◌, ◌≤◌, ◌*◌, ◌<◌, String, ◌≡◌, refl, sym, ap, subst, Bool, true, not, List, [],
  ◌∷◌, map, arith, ltb, ◌==◌, eq_refl, elem, filter, length, take, All, All-map, Bool-cases, inl,
  inr,
}
use forms.Models.{Instant, WebhookDelivery, SubmissionRow, Db}
use forms.Storage.Sweep.{
  expired_condition, set_null, delete_submissions, expired_ids, sweep, delete_expired_submissions,
  count_expired_submissions,
}
use forms.Storage.Sweep.Safety.{still_needed-unlinked}

take_all : (n : ℕ) (xs : List String) → length (take n xs) < n → take n xs ≡ xs
take_all zero xs h = absurd (omega arith)
take_all (suc n) [] h = refl
take_all (suc n) (x ∷ xs) h = ap (λ t. x ∷ t) (take_all n xs (omega arith))

-- Each row that passes has its identifier among those of the rows that pass.
passing_elem :
    (p : SubmissionRow → Bool) (t : List SubmissionRow)
    → All (λ r. p r ≡ true → elem r.id (map (λ x. x.id) (filter p t)) ≡ true) t
passing_elem p [] = tt
passing_elem p (r ∷ t) = (
  λ passes. rw (passes, eq_refl r.id) refl,
  All-map (λ x. p x ≡ true → elem x.id (map (λ y. y.id) (filter p t)) ≡ true)
      (λ x. p x ≡ true → elem x.id (map (λ y. y.id) (filter p (r ∷ t))) ≡ true) t
      (λ x h passes. ground (arith, h passes)) (passing_elem p t),
)

-- With every eligible row deleted, no row is eligible.
none_left :
    (before : Instant) (ds : List WebhookDelivery) (ids : List String) (t : List SubmissionRow)
    → All (λ r. expired_condition before ds r ≡ true → elem r.id ids ≡ true) t
    → length (
        filter
          (expired_condition before (
            map
              (λ (d : WebhookDelivery). record d { submission_id = set_null ids d.submission_id })
              ds))
          (filter (λ r. not (elem r.id ids)) t))
      ≡ 0
unfolding expired_condition
none_left before ds ids [] h = refl
none_left before ds ids (r ∷ t) h = elim (Bool-cases (elem r.id ids)) [
  | inl gone ↦ rw gone (none_left before ds ids t h.1)
  | inr stays ↦ elim (Bool-cases (expired_condition before ds r)) [
    | inl eligible ↦ cc (h.0 eligible, stays)
    | inr other ↦
        rw (stays, still_needed-unlinked ids r.id ds stays, other) (none_left before ds ids t h.1)
  ]
]

last_batch :
    (before : Instant) (n : ℕ) (db : Db)
    → length (expired_ids before n db) < n
    → count_expired_submissions before (delete_submissions (expired_ids before n db) db) ≡ 0
unfolding count_expired_submissions delete_submissions expired_ids
last_batch before n db h =
    let all =
      map (λ (r : SubmissionRow). r.id)
        (filter (expired_condition before db.deliveries) db.submissions) in
    none_left before db.deliveries (take n all) db.submissions (
      subst
        (λ ids.
          All (λ r. expired_condition before db.deliveries r ≡ true → elem r.id ids ≡ true)
            db.submissions)
        (sym (take_all n all h))
        (passing_elem (expired_condition before db.deliveries) db.submissions))

empty_batch :
    (n : ℕ) (p : SubmissionRow → Bool) (t : List SubmissionRow)
    → 0 < n
    → length (take n (map (λ r. r.id) (filter p t))) ≡ 0
    → length (filter p t) ≡ 0
empty_batch n p [] pos h = refl
empty_batch zero p (r ∷ t) pos h = absurd (omega arith)
empty_batch (suc n) p (r ∷ t) pos h = ground (arith, empty_batch (suc n) p t)

-- A batch deletes at least as many rows as it has identifiers.
batch_counted :
    (n : ℕ) (p : SubmissionRow → Bool) (ids : List String) (t : List SubmissionRow)
    → ((s : String) → elem s (take n (map (λ r. r.id) (filter p t))) ≡ true → elem s ids ≡ true)
    → length (take n (map (λ r. r.id) (filter p t))) ≤ length (filter (λ r. elem r.id ids) t)
batch_counted zero p ids t sub = omega arith
batch_counted (suc n) p ids [] sub = omega arith
batch_counted (suc n) p ids (r ∷ t) sub = elim (Bool-cases (p r)) [
  | inr no_ ↦ rw no_ (ground (arith, batch_counted (suc n) p ids t (rw no_ at sub)))
  | inl yes_ ↦
      let sub' = rw yes_ at sub in
      rw (yes_, sub' r.id (rw (eq_refl r.id) refl))
        (omega (arith, batch_counted n p ids t (λ s h. sub' s (ground (arith, h)))))
]

sweep_progress :
    (before : Instant) (n rounds removed : ℕ) (db : Db)
    → 0 < n
    → (sweep before n rounds removed db).0 < removed + n * rounds
    → count_expired_submissions before (sweep before n rounds removed db).1 ≡ 0
unfolding sweep
sweep_progress before n zero removed db pos h = absurd (omega arith)
sweep_progress before n (suc rounds) removed db pos h =
    let ids = expired_ids before n db in
    let gone = length (filter (λ r. elem r.id ids) db.submissions) in
    elim (Bool-cases (length ids == 0)) [
      | inl done ↦ rw done (
          unfold count_expired_submissions in
          empty_batch n (expired_condition before db.deliveries) db.submissions pos
            (unfold expired_ids in ground (arith, done)))
      | inr more ↦ elim (Bool-cases (ltb (length ids) n)) [
        | inl last ↦ rw (more, last) (last_batch before n db (ground (arith, last)))
        | inr full ↦
            let h' = rw (more, full) at h in
            let many : length ids ≤ gone =
              unfold expired_ids in
              batch_counted n (expired_condition before db.deliveries) ids db.submissions
                (λ s e. e) in
            let size : n ≤ length ids = ground (arith, full) in
            rw (more, full)
              (sweep_progress before n rounds (removed + gone) (delete_submissions ids db) pos
                (omega arith))
      ]
    ]

-- A sweep that removed fewer submissions than its ceiling of batches would allow has left none
-- that was eligible.
pub delete_expired_submissions_complete :
    (before : Instant) (batch_size max_batches : ℕ) (db : Db)
    → 0 < batch_size
    → (delete_expired_submissions before batch_size max_batches db).0 < batch_size * max_batches
    → count_expired_submissions before
        (delete_expired_submissions before batch_size max_batches db).1
      ≡ 0
unfolding delete_expired_submissions
delete_expired_submissions_complete before n rounds db pos h =
    sweep_progress before n rounds 0 db pos (omega arith)
