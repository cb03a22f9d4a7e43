-- ===== src/Tests/Reads.antt =====
-- Pages, histories and exports.
use forms.Prelude.{
  String, str_eq, false, same_text, ◌≡◌, refl, arith, true, none, some, List, [], ◌∷◌, map, codes,
  elem, any,
}
use forms.Exceptions.{ok, err, delivery_submission_deleted}
use forms.Webhooks.{delivered}
use forms.Models.{SubmissionRow, WebhookDelivery, Db}
use forms.Table.{find, update_at}
use forms.Pages.{
  newest_first, follows, insert_newest, page, page_after, anchored, next_cursor, last_of,
}
use forms.Pages.Walks.{walk, walk_complete}
use forms.Storage.Deliveries.{complete_attempt, requeue_failed_delivery}
use forms.Storage.Deliveries.ClaimLoop.{lookup}
use forms.Storage.Listings.{SubmissionFilter, count_submissions, stream_submissions, narrowed}
use forms.Export.{ExportedSubmission, field_names, csv_rows, exportable}
use forms.Export.Tables.{IsTable, NoDuplicates, has_field, csv_rows-IsTable}
use forms.Management.{filters_of, contains_nul}
use forms.Management.Documents.{Writers, export_submissions, chosen_format, export_body}
use forms.Management.Exports.{export_complete, document_of, everything}
use forms.Exceptions.{committed}
use forms.Webhooks.{is_retryable, is_exhausted, delay_after}
use forms.Storage.Submissions.{
  store_submission, find_by_idempotency_key, add_submission, insert_submission, insert_delivery,
  from_domain, new_delivery,
}
use forms.Storage.Sweep.{expired_ids, expired_condition, delete_submissions, still_needed}
use forms.Storage.Deliveries.{
  claim_due_deliveries, claim_each, due_condition, complete_current, transition, settle,
  insert_attempt,
}
use forms.Storage.Sweep.{delete_expired_submissions, sweep as sweep_rounds}
use forms.System.{here, next, store, claim, complete, sweep}
use forms.System.Histories.{Reach-IsConsistent}
use forms.Consistency.{IsConsistent}
use forms.Management.{replay_delivery}
use forms.Management.Replays.{outcome_for, replay_delivery_exact}
use forms.Tests.History.{fresh, one_stored, one_claimed, one_failed, history}
use forms.Tests.Samples.{
  given_up, with_delivery, stored, empty, waiting, policy, form, posted, key, target, mint, minute,
  held, success,
}
use forms.Tests.Collation.{by_code, by_code-IsOrder}

abbrev table : List SubmissionRow
table =
    stored
    ∷ record stored { id = "sub_2"; received_at = 2000 }
    ∷ record stored { id = "sub_3"; received_at = 1000; fields = ("=x", "+1" ∷ []) ∷ [] }
    ∷ []

two_pages :
    walk by_code (λ r. r.id) (λ r. r.received_at) (λ r. true) 2 3 none table
    ≡ ok (newest_first by_code (λ r. r.id) (λ r. r.received_at) table)
unfolding walk page page_after anchored newest_first insert_newest follows next_cursor last_of find
two_pages = refl

walk_complete_example :
    walk by_code (λ r. r.id) (λ r. r.received_at) (λ r. true) 2 4 none table
    ≡ ok (newest_first by_code (λ r. r.id) (λ r. r.received_at) table)
walk_complete_example =
    walk_complete by_code (λ r. r.id) (λ r. r.received_at) by_code-IsOrder (λ r. true) 2 table
      (((refl, (refl, tt)), ((refl, tt), (tt, tt)))) 4 (omega arith) (omega arith)

abbrev exported : List ExportedSubmission
exported = map exportable table

csv_rows-IsTable_example :
    IsTable (field_names exported) (csv_rows (λ t. []) (λ values. []) exported)
    × NoDuplicates (field_names exported)
    × (elem "email" (field_names exported)
        ≡ any (λ (s : ExportedSubmission). has_field "email" s.fields) exported)
csv_rows-IsTable_example = csv_rows-IsTable (λ t. []) (λ values. []) exported "email"

abbrev writers : Writers
writers = record {
  lower = λ text. text;
  timestamp = λ t. t ∷ [];
  dumps = λ values. [];
  dumps_object = λ object. [];
  write_row = λ cells. [];
}

abbrev full : Db
full = record empty { submissions = table }

abbrev unfiltered : SubmissionFilter
unfiltered = record { endpoint_id = none; received_after = none; received_before = none }

exported_whole :
    export_submissions by_code writers (some (codes "csv")) none none none 3 full full
    ≡ ok (document_of true writers (everything by_code unfiltered full))
unfolding export_submissions chosen_format filters_of export_body count_submissions
    stream_submissions narrowed newest_first insert_newest follows same_text
exported_whole = refl

export_complete_example :
    document_of true writers (everything by_code unfiltered full)
    ≡ document_of
        (same_text (chosen_format writers (some (codes "csv"))) (codes "csv"))
        writers
        (everything by_code unfiltered full)
export_complete_example =
    export_complete by_code writers (some (codes "csv")) none none none 3 full
      (document_of true writers (everything by_code unfiltered full)) exported_whole

abbrev failed_once : WebhookDelivery
failed_once = record waiting { attempts = 1; cycle_attempts = 1; next_attempt_at = 10002000 }

consistent : IsConsistent one_failed
consistent = Reach-IsConsistent policy (form ∷ []) one_failed history

retried : lookup "whd_1" one_failed.deliveries ≡ some failed_once
unfolding find update_at claim_due_deliveries claim_each due_condition complete_attempt
    complete_current transition settle insert_attempt is_retryable is_exhausted delay_after
    store_submission find_by_idempotency_key add_submission insert_submission insert_delivery
    from_domain new_delivery
retried = refl

-- The delivery is made, and its submission swept.
abbrev one_delivered : Db
one_delivered =
    committed one_claimed
      (complete_attempt "att_1" held success 2000 policy (some "clm_0") one_claimed)

abbrev swept : Db
swept = (delete_expired_submissions 5000 10 10 one_delivered).1

swept-IsConsistent : IsConsistent swept
swept-IsConsistent = Reach-IsConsistent policy (form ∷ []) swept (
    next
      (next
        (next
          (next here (store fresh "whd_1" fresh posted 1000 (some key) (some "f1") (some target)))
          (claim one_stored mint 1000 minute 10 (waiting ∷ []) (omega arith)))
        (complete one_claimed "att_1" held success 2000 (some "clm_0")))
      (sweep one_delivered 5000 10 10))

abbrev gone : WebhookDelivery
gone = record waiting {
  submission_id = none;
  state = delivered;
  attempts = 1;
  cycle_attempts = 1;
  completed_at = some 2000;
}

unlinked : lookup "whd_1" swept.deliveries ≡ some gone
unfolding find update_at claim_due_deliveries claim_each due_condition complete_attempt
    complete_current transition settle insert_attempt is_retryable is_exhausted delay_after
    store_submission find_by_idempotency_key add_submission insert_submission insert_delivery
    from_domain new_delivery delete_expired_submissions sweep_rounds expired_ids expired_condition
    delete_submissions still_needed
unlinked = refl

refused :
    (replay_delivery "whd_1" 6000 swept).0 ≡ err (delivery_submission_deleted "whd_1" "delivered")
unfolding replay_delivery requeue_failed_delivery find update_at claim_due_deliveries claim_each
    due_condition complete_attempt complete_current transition settle insert_attempt is_retryable
    is_exhausted delay_after store_submission find_by_idempotency_key add_submission
    insert_submission insert_delivery from_domain new_delivery delete_expired_submissions
    sweep_rounds expired_ids expired_condition delete_submissions still_needed
refused = refl

-- A failed delivery is replayed.
failed_row : lookup "whd_1" (with_delivery given_up).deliveries ≡ some given_up
unfolding find
failed_row = refl

replay_delivery_exact_example :
    let (answer, db') = replay_delivery "whd_1" 20000 (with_delivery given_up) in
    let (wanted, after) = outcome_for "whd_1" 20000 given_up in
    (answer ≡ wanted)
    × (lookup "whd_1" db'.deliveries ≡ some after)
    × ((j : String)
        → str_eq "whd_1" j ≡ false
        → lookup j db'.deliveries ≡ lookup j (with_delivery given_up).deliveries)
unfolding contains_nul
replay_delivery_exact_example =
    replay_delivery_exact "whd_1" 20000 (with_delivery given_up) given_up refl failed_row
