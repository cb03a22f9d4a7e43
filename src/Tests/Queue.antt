-- ===== src/Tests/Queue.antt =====
-- The delivery queue: claims, completions, replays and sweeps.
use forms.Prelude.{
  inr, List, filter, ◌+◌, String, ◌≡◌, ◌≢◌, refl, true, false, none, some, [], ◌∷◌, arith, length,
  All, str_eq, if◌then◌else◌,
}
use forms.Exceptions.{ok, is_ok}
use forms.Webhooks.{pending, processing, delivered, is_retryable, is_exhausted, delay_after}
use forms.Models.{WebhookDelivery, Db, DeliveryAttempt}
use forms.Table.{find, update_at}
use forms.Storage.Deliveries.{
  claim_due_deliveries, due_condition, complete_attempt, complete_current, transition, settle,
  insert_attempt, claim_each,
}
use forms.Storage.Deliveries.ClaimLoop.{lookup}
use forms.Storage.Deliveries.Claims.{claims_disjoint}
use forms.Storage.Deliveries.Fencing.{
  complete_attempt_total, complete_attempt-superseded, complete_attempt-verdict, verdict,
}
use forms.Storage.Deliveries.Draining.{claim_due_deliveries-drains}
use forms.Storage.Deliveries.Settling.{settles_once}
use forms.Storage.Sweep.{
  delete_expired_submissions, count_expired_submissions, sweep, expired_condition, expired_ids,
  delete_submissions, still_needed,
}
use forms.Storage.Sweep.Safety.{MustStay, delete_expired_submissions_safe}
use forms.Storage.Sweep.Progress.{delete_expired_submissions_complete}
use forms.Tests.Samples.{
  waiting, held, given_up, with_delivery, policy, success, unavailable, mint, mint', minute,
}

claimed_token :
    (claim_due_deliveries mint 1000 minute 10 (waiting ∷ []) (with_delivery waiting)).1.deliveries
    ≡ record held { claim_expires_at = some (1000 + minute) } ∷ []
unfolding claim_due_deliveries claim_each due_condition find update_at
claimed_token = refl

-- Nothing happens between the two claims.
unchanged :
    (table : List WebhookDelivery) (claimed : List WebhookDelivery)
    → All (λ c. lookup c.id table ≡ lookup c.id table) claimed
unchanged table [] = tt
unchanged table (c ∷ cs) = (refl, unchanged table cs)

claims_disjoint_example :
    let (one, db1) =
      claim_due_deliveries mint 1000 minute 10 (waiting ∷ []) (with_delivery waiting) in
    let (two, db2) = claim_due_deliveries mint' 2000 minute 10 (waiting ∷ []) db1 in
    All (λ c. All (λ d. c.id ≢ d.id) two) one
claims_disjoint_example =
    let db1 = (claim_due_deliveries mint 1000 minute 10 (waiting ∷ []) (with_delivery waiting)).1 in
    claims_disjoint mint mint' 1000 2000 minute minute 10 10 (waiting ∷ []) (waiting ∷ [])
      (with_delivery waiting) db1 (omega arith) (omega arith) (omega arith)
      (unchanged db1.deliveries
        (claim_due_deliveries mint 1000 minute 10 (waiting ∷ []) (with_delivery waiting)).0)

found_held : lookup "whd_1" (with_delivery held).deliveries ≡ some held
unfolding find
found_held = refl

complete_attempt_total_example :
    is_ok (complete_attempt "att_1" held success 2000 policy (some "clm_0") (with_delivery held))
    ≡ true
unfolding find
complete_attempt_total_example =
    complete_attempt_total "att_1" held success 2000 policy (some "clm_0") (with_delivery held) held
      found_held refl refl (omega arith) (omega arith)

-- What the completion of the held delivery returns, by the token presented.
abbrev recorded_attempt : String → DeliveryAttempt
recorded_attempt id = record {
  id = id;
  delivery_id = "whd_1";
  submission_id = some "sub_1";
  attempt_number = 1;
  destination_url = "https://example.com/hook";
  attempted_at = 2000;
  outcome = unavailable.outcome;
  response_status = some 503;
  error = none;
}

abbrev retried : WebhookDelivery
retried = record waiting { attempts = 1; cycle_attempts = 1; next_attempt_at = 10002000 }

abbrev after_retry : Db
after_retry = record (with_delivery retried) { attempts = recorded_attempt "att_1" ∷ [] }

abbrev kept_held : Db
kept_held = record (with_delivery (record held { attempts = 1 })) {
  attempts = recorded_attempt "att_1" ∷ [];
}

owner_done :
    complete_attempt "att_1" held unavailable 2000 policy (some "clm_0") (with_delivery held)
    ≡ ok (record { attempt = recorded_attempt "att_1"; state = pending; owned = true }, after_retry)
unfolding complete_attempt complete_current transition settle insert_attempt find update_at
    is_retryable is_exhausted delay_after
owner_done = refl

stale_done :
    complete_attempt "att_1" held unavailable 2000 policy (some "clm_9") (with_delivery held)
    ≡ ok (
      record { attempt = recorded_attempt "att_1"; state = processing; owned = false },
      kept_held,
    )
unfolding complete_attempt complete_current transition insert_attempt find update_at
stale_done = refl

complete_attempt-superseded_example :
    (false ≡ false)
    × (processing ≡ held.state)
    × (lookup "whd_1" kept_held.deliveries ≡ some (record held { attempts = held.attempts + 1 }))
    × (kept_held.attempts ≡ recorded_attempt "att_1" ∷ (with_delivery held).attempts)
    × ((recorded_attempt "att_1").attempt_number ≡ held.attempts + 1)
complete_attempt-superseded_example =
    complete_attempt-superseded "att_1" held unavailable 2000 policy (some "clm_9")
      (with_delivery held) held found_held
      (record { attempt = recorded_attempt "att_1"; state = processing; owned = false }) kept_held
      refl stale_done

complete_attempt-verdict_example :
    (true ≡ true)
    × (lookup "whd_1" after_retry.deliveries ≡ (
        if str_eq "whd_1" "whd_1"
        then some (verdict 2000 policy unavailable held)
        else lookup "whd_1" (with_delivery held).deliveries))
    × (after_retry.attempts ≡ recorded_attempt "att_1" ∷ (with_delivery held).attempts)
complete_attempt-verdict_example =
    complete_attempt-verdict "att_1" held unavailable 2000 policy (some "clm_0")
      (with_delivery held) held found_held
      (record { attempt = recorded_attempt "att_1"; state = pending; owned = true }) after_retry
      "whd_1" refl owner_done

-- The same worker reports again after its claim was settled.
abbrev second_attempt : DeliveryAttempt
second_attempt = record (recorded_attempt "att_2") { attempt_number = 2; attempted_at = 3000 }

abbrev after_both : Db
after_both = record (with_delivery (record retried { attempts = 2 })) {
  attempts = second_attempt ∷ recorded_attempt "att_1" ∷ [];
}

late_done :
    complete_attempt "att_2" held unavailable 3000 policy (some "clm_0") after_retry
    ≡ ok (record { attempt = second_attempt; state = pending; owned = false }, after_both)
unfolding complete_attempt complete_current transition insert_attempt find update_at
late_done = refl

settles_once_example : false ≡ false
settles_once_example =
    settles_once "att_1" "att_2" held held unavailable unavailable 2000 3000 policy policy
      (some "clm_0") (with_delivery held) held
      (record { attempt = recorded_attempt "att_1"; state = pending; owned = true })
      (record { attempt = second_attempt; state = pending; owned = false }) after_retry after_retry
      after_both found_held owner_done refl refl refl late_done

-- A submission whose delivery failed is kept, whatever its age.
protected : MustStay 5000 "sub_1" (with_delivery given_up)
unfolding find
protected = inr ("whd_1", given_up, refl, refl, inr (inr refl))

delete_expired_submissions_safe_example :
    let (removed, db') = delete_expired_submissions 5000 10 3 (with_delivery given_up) in
    (find (λ x. x.id) "sub_1" db'.submissions
      ≡ find (λ x. x.id) "sub_1" (with_delivery given_up).submissions)
    × (removed + length db'.submissions ≡ length (with_delivery given_up).submissions)
delete_expired_submissions_safe_example =
    delete_expired_submissions_safe 5000 10 3 (with_delivery given_up) "sub_1" protected

-- One that was delivered goes in the first round.
abbrev done : Db
done = with_delivery (record waiting {
  state = delivered;
  attempts = 1;
  cycle_attempts = 1;
  completed_at = some 2000;
})

one_removed : (delete_expired_submissions 5000 10 3 done).0 ≡ 1
unfolding delete_expired_submissions sweep expired_ids expired_condition still_needed
    delete_submissions
one_removed = refl

delete_expired_submissions_complete_example :
    count_expired_submissions 5000 (delete_expired_submissions 5000 10 3 done).1 ≡ 0
delete_expired_submissions_complete_example =
    delete_expired_submissions_complete 5000 10 3 done (omega arith) (omega (arith, one_removed))

-- One due delivery and room for ten.
one_due : length (filter (due_condition 1000) (with_delivery waiting).deliveries) ≡ 1
unfolding due_condition
one_due = refl

claim_due_deliveries-drains_example :
    let after =
      (claim_due_deliveries mint 1000 minute 10
        (with_delivery waiting).deliveries
        (with_delivery waiting)).1.deliveries in
    ((r : WebhookDelivery) → lookup "whd_1" after ≡ some r → due_condition 1000 r ≡ false)
    × ((old : WebhookDelivery)
        → lookup "whd_1" (with_delivery waiting).deliveries ≡ some old
        → due_condition 1000 old ≡ true
        → (token : String) × (lookup "whd_1" after
            ≡ some (record old {
              state = processing;
              claim_token = some token;
              claim_expires_at = some (1000 + minute);
            })))
claim_due_deliveries-drains_example =
    claim_due_deliveries-drains mint 1000 minute 10 (with_delivery waiting) "whd_1" (omega arith)
      (omega (arith, one_due))
