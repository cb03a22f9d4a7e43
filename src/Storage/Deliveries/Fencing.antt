-- ===== src/Storage/Deliveries/Fencing.antt =====
-- Who may settle a delivery, and to what: `complete_attempt` of hymical_forms/storage.py.
use forms.Prelude.{
  str_eq, ◌+◌, ◌*◌, ◌^◌, ◌-◌, min, ◌≤◌, ◌<◌, String, ◌≡◌, refl, sym, ap, ◌∙◌, Bool, true, false,
  ◌&&◌, Option, none, some, ◌∷◌, arith, leb, if◌then◌else◌,
}
use forms.Exceptions.{Result, ok, err, is_ok}
use forms.Webhooks.{
  DeliveryResult, RetryPolicy, DeliveryState, delivered, failed, pending, is_exhausted,
  is_retryable, delay_after, timedelta, is_succeeded,
}
use forms.Models.{Instant, instant_limit, WebhookDelivery, DeliveryAttempt, Db}
use forms.Table.{find}
use forms.Storage.Deliveries.{
  owns, settle, insert_attempt, transition, complete_current, complete_attempt, CompletedAttempt,
  is_dangling,
}
use forms.Storage.Deliveries.ClaimLoop.{lookup}
use forms.Storage.Deliveries.Completions.{applied}
use forms.Storage.Deliveries.Recording.{complete_attempt-IsRecorded}

-- The row that an owned completion is to leave behind, by cases on the outcome.
abbrev pub finished : DeliveryState → Instant → WebhookDelivery → WebhookDelivery
finished state now row = record row {
  attempts = row.attempts + 1;
  cycle_attempts = row.cycle_attempts + 1;
  claim_expires_at = none;
  claim_token = none;
  state = state;
  completed_at = some now;
}

abbrev pub waiting : Instant → WebhookDelivery → WebhookDelivery
waiting due row = record row {
  attempts = row.attempts + 1;
  cycle_attempts = row.cycle_attempts + 1;
  claim_expires_at = none;
  claim_token = none;
  state = pending;
  next_attempt_at = due;
}

abbrev pub verdict : Instant → RetryPolicy → DeliveryResult → WebhookDelivery → WebhookDelivery
verdict now policy result row =
    if is_succeeded result.outcome
    then finished delivered now row
    else if is_retryable result && leb (row.cycle_attempts + 2) policy.max_attempts
    then waiting (now + min (policy.initial * 2 ^ row.cycle_attempts) policy.max_wait) row
    else finished failed now row

transition-verdict :
    (now : Instant) (policy : RetryPolicy) (result : DeliveryResult) (current : WebhookDelivery)
    → is_ok (transition true now policy result current) ≡ true
    → applied (transition true now policy result current) current
      ≡ verdict now policy result current
unfolding transition settle is_exhausted delay_after timedelta
transition-verdict now policy result current h =
    let one_less : current.cycle_attempts + 1 - 1 ≡ current.cycle_attempts = omega arith in
    rw one_less (ground arith)

transition_total :
    (owned : Bool) (now : Instant) (policy : RetryPolicy) (result : DeliveryResult)
    (current : WebhookDelivery)
    → policy.max_attempts ≤ 1025
    → now + policy.max_wait < instant_limit
    → is_ok (transition owned now policy result current) ≡ true
unfolding transition settle is_exhausted delay_after timedelta
transition_total true now policy result current few early =
    let one_less : current.cycle_attempts + 1 - 1 ≡ current.cycle_attempts = omega arith in
    rw one_less (ground arith)
transition_total false now policy result current few early = refl

insert_attempt_total :
    (a : DeliveryAttempt) (db : Db) {current : WebhookDelivery}
    → find (λ x. x.id) a.id db.attempts ≡ none
    → lookup a.delivery_id db.deliveries ≡ some current
    → is_dangling a.submission_id db ≡ false
    → is_ok (insert_attempt a db) ≡ true
unfolding insert_attempt
insert_attempt_total a db fresh found linked = rw (fresh, found, linked) refl

value_of : {A : Type 0} (r : Result A) → is_ok r ≡ true → (a : A) × (r ≡ ok a)
value_of (ok a) h = (a, refl)
value_of (err e) h = cc

lost_change :
    (claim_token : Option String) (now : Instant) (policy : RetryPolicy) (result : DeliveryResult)
    (current : WebhookDelivery) (change : WebhookDelivery → WebhookDelivery)
    → owns claim_token current.claim_token ≡ false
    → transition (owns claim_token current.claim_token) now policy result current ≡ ok change
    → change current ≡ record current { attempts = current.attempts + 1 }
unfolding transition
lost_change claim_token now policy result current change lost works =
    let works' = rw lost at works in ap (λ f. applied f current) (sym works')

module _ (attempt_id : String) (delivery : WebhookDelivery) (result : DeliveryResult)
    (now : Instant) (policy : RetryPolicy) (claim_token : Option String) (db : Db)
    (current : WebhookDelivery) (found : lookup delivery.id db.deliveries ≡ some current) where
  -- A completion raises nothing when the delivery is stored, the attempt's identifier is new, the
  -- submission that the worker had loaded is still stored, the policy allows at most 1025 attempts,
  -- and its longest wait from now ends before the year 10000: the request is recorded.
  pub complete_attempt_total :
      find (λ a. a.id) attempt_id db.attempts ≡ none
      → is_dangling delivery.submission_id db ≡ false
      → policy.max_attempts ≤ 1025
      → now + policy.max_wait < instant_limit
      → is_ok (complete_attempt attempt_id delivery result now policy claim_token db) ≡ true
  unfolding complete_attempt complete_current
  complete_attempt_total fresh linked few early =
      let attempt : DeliveryAttempt = record {
        id = attempt_id;
        delivery_id = delivery.id;
        submission_id = delivery.submission_id;
        attempt_number = current.attempts + 1;
        destination_url = delivery.destination_url;
        attempted_at = now;
        outcome = result.outcome;
        response_status = result.response_status;
        error = result.error;
      } in
      let owned = owns claim_token current.claim_token in
      let (change, works) =
        value_of (transition owned now policy result current)
          (transition_total owned now policy result current few early) in
      let (db', inserted) =
        value_of (insert_attempt attempt db) (insert_attempt_total attempt db fresh found linked) in
      rw (found, works, inserted) refl

  -- When the claim no longer holds, a recorded completion counts and records its request and
  -- changes nothing else of the delivery: not its state, lease, token, cycle or schedule.
  pub complete_attempt-superseded :
      (c : CompletedAttempt) (db' : Db)
      → owns claim_token current.claim_token ≡ false
      → complete_attempt attempt_id delivery result now policy claim_token db ≡ ok (c, db')
      → (c.owned ≡ false)
        × (c.state ≡ current.state)
        × (lookup delivery.id db'.deliveries
            ≡ some (record current { attempts = current.attempts + 1 }))
        × (db'.attempts ≡ c.attempt ∷ db.attempts)
        × (c.attempt.attempt_number ≡ current.attempts + 1)
  complete_attempt-superseded c db' lost done =
      let r =
        complete_attempt-IsRecorded delivery result now policy claim_token db current found c db'
          attempt_id done in
      let same = lost_change claim_token now policy result current r.change lost r.works in
      (
        r.owned ∙ lost,
        r.state ∙ ap (λ x. x.state) same,
        r.row ∙ ap some same,
        r.attempts,
        r.attempt.attempt_number,
      )

  -- When the claim still holds, a recorded completion leaves the row of the verdict: delivered after a success; pending again after a retryable
  -- failure that leaves an attempt in the allowance, due after the initial wait doubled for each
  -- attempt of the cycle before this one and capped; failed otherwise; in every case one attempt
  -- more in both counters and no claim. It leaves every other row as it was.
  pub complete_attempt-verdict :
      (c : CompletedAttempt) (db' : Db) (j : String)
      → owns claim_token current.claim_token ≡ true
      → complete_attempt attempt_id delivery result now policy claim_token db ≡ ok (c, db')
      → (c.owned ≡ true)
        × (lookup j db'.deliveries ≡ (
            if str_eq delivery.id j
            then some (verdict now policy result current)
            else lookup j db.deliveries))
        × (db'.attempts ≡ c.attempt ∷ db.attempts)
  complete_attempt-verdict c db' j held done =
      let r =
        complete_attempt-IsRecorded delivery result now policy claim_token db current found c db'
          attempt_id done in
      let works = rw held at r.works in
      (
        r.owned ∙ held,
        r.rows j
            ∙ ap (λ x. if str_eq delivery.id j then some x else lookup j db.deliveries)
                (ap (λ f. applied f current) (sym works)
                  ∙ transition-verdict now policy result current (ap is_ok works)),
        r.attempts,
      )
