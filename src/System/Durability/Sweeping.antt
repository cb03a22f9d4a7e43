-- ===== src/System/Durability/Sweeping.antt =====
-- A retention sweep keeps a delivery, and its submission until it was delivered.
use forms.Prelude.{
  ℕ, zero, suc, ◌+◌, String, ◌≡◌, refl, ap, ◌∙◌, true, false, List, arith, ltb, ◌==◌, elem, filter,
  length, Bool-cases, inl, inr,
}
use forms.Models.{Instant, WebhookDelivery, SubmissionRow, Db}
use forms.Storage.Sweep.{
  still_needed, set_null, delete_submissions, expired_ids, sweep, delete_expired_submissions,
}
use forms.Storage.Sweep.Deletes.{
  unlink, mapped, find-undeleted, lookup-unlinked, still_needed-lookup, expired_ids-unneeded,
}
use forms.System.Durability.{IsOwed, onward}

module _ (j : String) (a : WebhookDelivery) (x : SubmissionRow) where
  delete_submissions-IsOwed :
      (ids : List String) (db : Db)
      → ((s : String) → elem s ids ≡ true → still_needed db.deliveries s ≡ false)
      → IsOwed j a x db
      → IsOwed j a x (delete_submissions ids db)
  unfolding delete_submissions set_null
  delete_submissions-IsOwed ids db unneeded o =
      onward j a x o (unlink ids o.row)
        (lookup-unlinked ids j db.deliveries ∙ ap (mapped (unlink ids)) o.stored)
        (record {
          endpoint = refl;
          destination = refl;
          secret = refl;
          history = omega arith;
          settled = λ h. h;
        })
        (λ protected (named, there).
          let out : elem x.id ids ≡ false = elim (Bool-cases (elem x.id ids)) [
            | inr out ↦ out
            | inl gone ↦ cc (
              unneeded x.id gone,
              still_needed-lookup j x.id db.deliveries o.row o.stored named protected,
            )
          ] in
          (
            ap (set_null ids) named ∙ rw out refl,
            find-undeleted ids x.id db.submissions ∙ rw out there,
          ))

  sweep-IsOwed :
      (before : Instant) (batch_size rounds removed : ℕ) (db : Db)
      → IsOwed j a x db
      → IsOwed j a x (sweep before batch_size rounds removed db).1
  unfolding sweep
  sweep-IsOwed before n zero removed db o = o
  sweep-IsOwed before n (suc rounds) removed db o =
      let ids = expired_ids before n db in
      let db' = delete_submissions ids db in
      let o' : IsOwed j a x db' =
        delete_submissions-IsOwed ids db (expired_ids-unneeded before n db) o in
      elim (Bool-cases (length ids == 0)) [
        | inl done ↦ rw done o
        | inr more ↦ elim (Bool-cases (ltb (length ids) n)) [
          | inl last ↦ rw (more, last) o'
          | inr full ↦
              rw (more, full)
                (sweep-IsOwed before n rounds
                  (removed + length (filter (λ r. elem r.id ids) db.submissions)) db' o')
        ]
      ]

  pub delete_expired_submissions-IsOwed :
      (before : Instant) (batch_size max_batches : ℕ) (db : Db)
      → IsOwed j a x db
      → IsOwed j a x (delete_expired_submissions before batch_size max_batches db).1
  unfolding delete_expired_submissions
  delete_expired_submissions-IsOwed before n max_batches db o =
      sweep-IsOwed before n max_batches 0 db o
