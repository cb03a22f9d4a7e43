-- ===== src/Storage/Sweep.antt =====
-- The retention sweep of hymical_forms/storage.py, with the ON DELETE SET NULL of the two foreign
-- keys to a submission.
pub mod Deletes
pub mod Safety
pub mod Progress
use forms.Prelude.{
  ℕ, zero, suc, ◌+◌, String, Bool, not, ◌&&◌, Option, none, some, List, map, ltb, ◌==◌, holds, elem,
  if◌then◌else◌, any, filter, take, length,
}
use forms.Models.{Instant, SubmissionRow, WebhookDelivery, DeliveryAttempt, Db}
use forms.Retention.{is_protected}

-- The subquery `still_needed`, for one submission.
unfoldable pub still_needed : List WebhookDelivery → String → Bool
still_needed deliveries submission_id =
    any (λ d. holds d.submission_id submission_id && is_protected d.state) deliveries

unfoldable pub expired_condition : Instant → List WebhookDelivery → SubmissionRow → Bool
expired_condition before deliveries row =
    ltb row.received_at before && not (still_needed deliveries row.id)

unfoldable pub count_expired_submissions : Instant → Db → ℕ
count_expired_submissions before db =
    length (filter (expired_condition before db.deliveries) db.submissions)

-- ON DELETE SET NULL
unfoldable pub set_null : List String → Option String → Option String
set_null ids none = none
set_null ids (some s) = if elem s ids then none else some s

-- DELETE of the submissions with these identifiers.
unfoldable pub delete_submissions : List String → Db → Db
unfolding set_null
delete_submissions ids db = record db {
  submissions = filter (λ r. not (elem r.id ids)) db.submissions;
  deliveries =
      map (λ (d : WebhookDelivery). record d { submission_id = set_null ids d.submission_id })
        db.deliveries;
  attempts =
      map (λ (a : DeliveryAttempt). record a { submission_id = set_null ids a.submission_id })
        db.attempts;
}

unfoldable pub expired_ids : Instant → ℕ → Db → List String
expired_ids before batch_size db =
    take batch_size
      (map (λ r. r.id) (filter (expired_condition before db.deliveries) db.submissions))

-- One round of the loop per unit of `max_batches`, and the number removed so far.
unfoldable pub sweep : (before : Instant) (batch_size max_batches : ℕ) → ℕ → Db → ℕ × Db
sweep before batch_size zero removed db = (removed, db)
sweep before batch_size (suc rounds) removed db =
    let ids = expired_ids before batch_size db in
    let db' = delete_submissions ids db in
    let rowcount = length (filter (λ r. elem r.id ids) db.submissions) in
    let on = sweep before batch_size rounds (removed + rowcount) db' in
    if length ids == 0
    then (removed, db)
    else if ltb (length ids) batch_size
    then (removed + rowcount, db')
    else on

unfoldable pub delete_expired_submissions : Instant → ℕ → ℕ → Db → ℕ × Db
unfolding sweep
delete_expired_submissions before batch_size max_batches db =
    sweep before batch_size max_batches 0 db
