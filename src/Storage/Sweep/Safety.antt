-- ===== src/Storage/Sweep/Safety.antt =====
-- What a retention sweep removes: `delete_expired_submissions` of hymical_forms/storage.py.
use forms.Prelude.{
  ℕ, zero, suc, ◌+◌, String, ◌≡◌, refl, subst, ◌∙◌, Bool, true, false, not, ◌&&◌, List, [], ◌∷◌,
  map, arith, ltb, ◌==◌, str_eq, eq_iff, elem, filter, length, any, take, Bool-cases, Option-cases,
  inl, inr, All, ◌≤◌, ◌⊎◌, sym, ap, some,
}
use forms.Webhooks.{pending, processing, failed}
use forms.Retention.{is_protected}
use forms.Storage.Deliveries.ClaimLoop.{lookup}
use forms.Models.{Instant, WebhookDelivery, SubmissionRow, Db}
use forms.Table.{find}
use forms.Storage.Sweep.{
  still_needed, expired_condition, set_null, delete_submissions, expired_ids, sweep,
  delete_expired_submissions,
}
use forms.Storage.Sweep.Deletes.{find-undeleted, elem-take, still_needed-lookup}

length-filter-not :
    (p : SubmissionRow → Bool) (t : List SubmissionRow)
    → length (filter p t) + length (filter (λ r. not (p r)) t) ≡ length t
length-filter-not p [] = omega arith
length-filter-not p (r ∷ t) = ground (arith, length-filter-not p t)

sweep_count :
    (before : Instant) (n rounds removed : ℕ) (db : Db)
    → let (total, db') = sweep before n rounds removed db in
      total + length db'.submissions ≡ removed + length db.submissions
unfolding sweep delete_submissions
sweep_count before n zero removed db = refl
sweep_count before n (suc rounds) removed db =
    let ids = expired_ids before n db in
    let gone = length (filter (λ r. elem r.id ids) db.submissions) in
    let split = length-filter-not (λ r. elem r.id ids) db.submissions in
    elim (Bool-cases (length ids == 0)) [
      | inl done ↦ rw done refl
      | inr more ↦ elim (Bool-cases (ltb (length ids) n)) [
        | inl last ↦ rw (more, last) (omega (arith, split))
        | inr full ↦
            rw (more, full)
              (omega (
                arith,
                split,
                sweep_count before n rounds (removed + gone) (delete_submissions ids db),
              ))
      ]
    ]

-- The subquery is about the links of deliveries; a delete of other submissions leaves it.
pub still_needed-unlinked :
    (ids : List String) (s : String) (t : List WebhookDelivery)
    → elem s ids ≡ false
    → still_needed
        (map (λ (d : WebhookDelivery). record d { submission_id = set_null ids d.submission_id }) t)
        s
      ≡ still_needed t s
unfolding still_needed set_null
still_needed-unlinked ids s [] out = refl
still_needed-unlinked ids s (d ∷ t) out = elim (Option-cases d.submission_id) [
  | inl e ↦ rw (e, still_needed-unlinked ids s t out) refl
  | inr (x, e) ↦ elim (Bool-cases (elem x ids)) [
    | inr stays ↦ rw (e, stays, still_needed-unlinked ids s t out) refl
    | inl gone ↦ elim (Bool-cases (str_eq x s)) [
      | inl same ↦ cc (subst (λ y. elem y ids ≡ true) ((eq_iff x s).0 same) gone, out)
      | inr other ↦ rw (e, gone, still_needed-unlinked ids s t out, other) refl
    ]
  ]
]

-- Has the table a row of this identifier that a sweep may delete?
abbrev pub is_eligible : Instant → String → Db → Bool
is_eligible before s db =
    any (λ r. str_eq r.id s && expired_condition before db.deliveries r) db.submissions

eligible_elem :
    (before : Instant) (ds : List WebhookDelivery) (s : String) (t : List SubmissionRow)
    → any (λ r. str_eq r.id s && expired_condition before ds r) t ≡ false
    → elem s (map (λ r. r.id) (filter (expired_condition before ds) t)) ≡ false
eligible_elem before ds s [] h = refl
eligible_elem before ds s (r ∷ t) h = ground (arith, eligible_elem before ds s t)

eligible_batch :
    (before : Instant) (n : ℕ) (s : String) (db : Db)
    → is_eligible before s db ≡ false
    → elem s (expired_ids before n db) ≡ false
unfolding expired_ids
eligible_batch before n s db h =
    let ids = map (λ r. r.id) (filter (expired_condition before db.deliveries) db.submissions) in
    elim (Bool-cases (elem s (take n ids))) [
      | inr out ↦ out
      | inl is ↦ cc (elem-take s n ids is, eligible_elem before db.deliveries s db.submissions h)
    ]

eligible_rows :
    (before : Instant) (ds : List WebhookDelivery) (ids : List String) (s : String)
    (t : List SubmissionRow)
    → elem s ids ≡ false
    → any (λ r. str_eq r.id s && expired_condition before ds r) t ≡ false
    → any
        (λ r.
          str_eq r.id s
          && expired_condition before
              (map
                (λ (d : WebhookDelivery). record d { submission_id = set_null ids d.submission_id })
                ds)
              r)
        (filter (λ r. not (elem r.id ids)) t)
      ≡ false
unfolding expired_condition
eligible_rows before ds ids s [] out h = refl
eligible_rows before ds ids s (r ∷ t) out h = elim (Bool-cases (elem r.id ids)) [
  | inl gone ↦ rw gone (eligible_rows before ds ids s t out (ground (arith, h)))
  | inr stays ↦
      rw (stays, still_needed-unlinked ids r.id ds stays)
        (ground (arith, h, eligible_rows before ds ids s t out))
]

sweep-ineligible :
    (before : Instant) (n rounds removed : ℕ) (s : String) (db : Db)
    → is_eligible before s db ≡ false
    → find (λ x. x.id) s (sweep before n rounds removed db).1.submissions
      ≡ find (λ x. x.id) s db.submissions
unfolding sweep
sweep-ineligible before n zero removed s db h = refl
sweep-ineligible before n (suc rounds) removed s db h =
    let ids = expired_ids before n db in
    let gone = length (filter (λ r. elem r.id ids) db.submissions) in
    let out = eligible_batch before n s db h in
    let kept : find (λ x. x.id) s (delete_submissions ids db).submissions
        ≡ find (λ x. x.id) s db.submissions =
      unfold delete_submissions in find-undeleted ids s db.submissions ∙ rw out refl in
    elim (Bool-cases (length ids == 0)) [
      | inl done ↦ rw done refl
      | inr more ↦ elim (Bool-cases (ltb (length ids) n)) [
        | inl last ↦ rw (more, last) kept
        | inr full ↦
            rw (more, full)
              (sweep-ineligible before n rounds (removed + gone) s (delete_submissions ids db) (
                  unfold delete_submissions in
                  eligible_rows before db.deliveries ids s db.submissions out h)
                ∙ kept)
      ]
    ]

-- A submission that is not to be deleted: every row of its identifier was received at the cutoff or
-- later, or a delivery that is not delivered yet, or that failed, still names it.
abbrev pub MustStay : Instant → String → Db → Type 0
MustStay before s db =
    All (λ r. r.id ≡ s → before ≤ r.received_at) db.submissions
    ⊎ ((j : String) × (d : WebhookDelivery) × (lookup j db.deliveries ≡ some d)
        × (d.submission_id ≡ some s)
        × ((d.state ≡ pending) ⊎ ((d.state ≡ processing) ⊎ (d.state ≡ failed))))

recent_ineligible :
    (before : Instant) (ds : List WebhookDelivery) (s : String) (t : List SubmissionRow)
    → All (λ r. r.id ≡ s → before ≤ r.received_at) t
    → any (λ r. str_eq r.id s && expired_condition before ds r) t ≡ false
unfolding expired_condition
recent_ineligible before ds s [] h = refl
recent_ineligible before ds s (r ∷ t) (recent, others) = elim (Bool-cases (str_eq r.id s)) [
  | inl same ↦
      let late : ltb r.received_at before ≡ false =
        ground (arith, recent ((eq_iff r.id s).0 same)) in
      rw (same, late) (recent_ineligible before ds s t others)
  | inr other ↦ rw other (recent_ineligible before ds s t others)
]

needed_ineligible :
    (before : Instant) (ds : List WebhookDelivery) (s : String) (t : List SubmissionRow)
    → still_needed ds s ≡ true
    → any (λ r. str_eq r.id s && expired_condition before ds r) t ≡ false
unfolding expired_condition
needed_ineligible before ds s [] h = refl
needed_ineligible before ds s (r ∷ t) h = elim (Bool-cases (str_eq r.id s)) [
  | inl same ↦
      let needed : still_needed ds r.id ≡ true =
        subst (λ x. still_needed ds x ≡ true) (sym ((eq_iff r.id s).0 same)) h in
      ground (arith, needed, needed_ineligible before ds s t h)
  | inr other ↦ rw other (needed_ineligible before ds s t h)
]

MustStay-ineligible :
    (before : Instant) (s : String) (db : Db)
    → MustStay before s db
    → is_eligible before s db ≡ false
MustStay-ineligible before s db (inl recent) =
    recent_ineligible before db.deliveries s db.submissions recent
MustStay-ineligible before s db (inr (j, d, found, names, state)) =
    let protected : is_protected d.state ≡ true = elim state [
      | inl e ↦ ap is_protected e
      | inr (inl e) ↦ ap is_protected e
      | inr (inr e) ↦ ap is_protected e
    ] in
    needed_ineligible before db.deliveries s db.submissions
      (still_needed-lookup j s db.deliveries d found names protected)

-- A sweep keeps every submission that it may not delete, however many batches it does: one whose
-- rows are all at least as recent as the cutoff, or that is named by a stored delivery that is
-- pending, processing or failed. The count that it returns is the number of submissions that are
-- gone.
pub delete_expired_submissions_safe :
    (before : Instant) (batch_size max_batches : ℕ) (db : Db) (s : String)
    → MustStay before s db
    → let (removed, db') = delete_expired_submissions before batch_size max_batches db in
      (find (λ x. x.id) s db'.submissions ≡ find (λ x. x.id) s db.submissions)
      × (removed + length db'.submissions ≡ length db.submissions)
unfolding delete_expired_submissions
delete_expired_submissions_safe before n rounds db s h = (
  sweep-ineligible before n rounds 0 s db (MustStay-ineligible before s db h),
  omega (arith, sweep_count before n rounds 0 db),
)
