-- ===== src/Storage/Deliveries/Completions.antt =====
-- What recording an attempt does: `complete_attempt` of hymical_forms/storage.py.
use forms.Prelude.{
  ◌+◌, String, ◌≡◌, refl, sym, ap, ◌∙◌, Bool, false, not, ◌||◌, Option, none, some, List, ◌∷◌,
  arith, str_eq, eq_iff, if◌then◌else◌, inl, inr,
}
use forms.Exceptions.{Result, ok, err, committed, is_ok, Result-cases}
use forms.Webhooks.{DeliveryResult, RetryPolicy}
use forms.Models.{Instant, WebhookDelivery, DeliveryAttempt, Db}
use forms.Table.{update_at, find-update_at}
use forms.Storage.Deliveries.{
  owns, settle, insert_attempt, transition, complete_current, complete_found, complete_attempt,
  CompletedAttempt,
}
use forms.Storage.Deliveries.ClaimLoop.{lookup}

-- What a change makes of a row.
abbrev pub applied : Result (WebhookDelivery → WebhookDelivery) → WebhookDelivery → WebhookDelivery
applied (ok f) r = f r
applied (err e) r = r

pub transition-id :
    (owned : Bool) (now : Instant) (policy : RetryPolicy) (result : DeliveryResult)
    (current row : WebhookDelivery)
    → (applied (transition owned now policy result current) row).id ≡ row.id
unfolding transition settle
transition-id owned now policy result current row = ground arith

-- The attempt that a completion records.
pub record IsRecordOf (delivery : WebhookDelivery) (result : DeliveryResult) (now : Instant)
    (current : WebhookDelivery) (a : DeliveryAttempt) : Type 0 where
  pub delivery_id : a.delivery_id ≡ delivery.id
  pub attempt_number : a.attempt_number ≡ current.attempts + 1
  pub submission_id : a.submission_id ≡ delivery.submission_id
  pub attempted_at : a.attempted_at ≡ now
  pub outcome : a.outcome ≡ result.outcome

-- The two ways in which a completion ends.
pub data Completed (delivery : WebhookDelivery) (result : DeliveryResult) (now : Instant)
    (policy : RetryPolicy) (claim_token : Option String) (db : Db)
    (r : Result (CompletedAttempt × Db)) : Type 0 where
  raised :
      is_ok r ≡ false → committed db r ≡ db → Completed delivery result now policy claim_token db r
  recorded :
      (current : WebhookDelivery) (change : WebhookDelivery → WebhookDelivery) (a : DeliveryAttempt)
      (c : CompletedAttempt)
      → lookup delivery.id db.deliveries ≡ some current
      → transition (owns claim_token current.claim_token) now policy result current ≡ ok change
      → IsRecordOf delivery result now current a
      → c.owned ≡ owns claim_token current.claim_token
      → c.state ≡ (change current).state
      → c.attempt ≡ a
      → r
        ≡ ok (
          c,
          record db {
            attempts = a ∷ db.attempts;
            deliveries =
                update_at
                  (λ x. x.id)
                  delivery.id
                  (λ row.
                    not (owns claim_token current.claim_token) || owns claim_token row.claim_token)
                  change
                  db.deliveries;
          },
        )
      → Completed delivery result now policy claim_token db r

insert_attempt-ok :
    (a : DeliveryAttempt) (db db' : Db)
    → insert_attempt a db ≡ ok db'
    → db' ≡ record db { attempts = a ∷ db.attempts }
unfolding insert_attempt
insert_attempt-ok a db db' h = ground arith

module _ (attempt_id : String) (delivery : WebhookDelivery) (result : DeliveryResult)
    (now : Instant) (policy : RetryPolicy) (claim_token : Option String) (db : Db) where
  abbrev attempt_of : WebhookDelivery → DeliveryAttempt
  attempt_of current = record {
    id = attempt_id;
    delivery_id = delivery.id;
    submission_id = delivery.submission_id;
    attempt_number = current.attempts + 1;
    destination_url = delivery.destination_url;
    attempted_at = now;
    outcome = result.outcome;
    response_status = result.response_status;
    error = result.error;
  }

  complete_current-Completed :
      (current : WebhookDelivery)
      → lookup delivery.id db.deliveries ≡ some current
      → Completed delivery result now policy claim_token db
          (complete_current attempt_id delivery result now policy claim_token db current)
  unfolding complete_current
  complete_current-Completed current found =
      elim (Result-cases
        (transition (owns claim_token current.claim_token) now policy result current)) [
          | inr (e, fails) ↦ raised (rw fails refl) (rw fails refl)
          | inl (change, works) ↦ elim (Result-cases (insert_attempt (attempt_of current) db)) [
            | inr (e, fails) ↦ raised (rw (works, fails) refl) (rw (works, fails) refl)
            | inl (db', inserted) ↦
                recorded current change (attempt_of current)
                  (record {
                    attempt = attempt_of current;
                    state = (change current).state;
                    owned = owns claim_token current.claim_token;
                  })
                  found works
                  (record {
                    delivery_id = refl;
                    attempt_number = refl;
                    submission_id = refl;
                    attempted_at = refl;
                    outcome = refl;
                  })
                  refl refl refl
                  (rw (works, inserted, insert_attempt-ok (attempt_of current) db db' inserted)
                    refl)
          ]
        ]

  complete_found-Completed :
      (o : Option WebhookDelivery)
      → lookup delivery.id db.deliveries ≡ o
      → Completed delivery result now policy claim_token db
          (complete_found attempt_id delivery result now policy claim_token db o)
  unfolding complete_found
  complete_found-Completed none found = raised refl refl
  complete_found-Completed (some current) found = complete_current-Completed current found

  pub complete_attempt-Completed :
      Completed delivery result now policy claim_token db
        (complete_attempt attempt_id delivery result now policy claim_token db)
  unfolding complete_attempt
  complete_attempt-Completed = complete_found-Completed (lookup delivery.id db.deliveries) refl

-- The row of the delivery after a completion was recorded; the rows of other keys.
pub lookup-recorded :
    (delivery : WebhookDelivery) (token : Option String) (now : Instant) (policy : RetryPolicy)
    (result : DeliveryResult) (current : WebhookDelivery)
    (change : WebhookDelivery → WebhookDelivery) (t : List WebhookDelivery) (j : String)
    → lookup delivery.id t ≡ some current
    → transition (owns token current.claim_token) now policy result current ≡ ok change
    → lookup j (
        update_at
          (λ x. x.id)
          delivery.id
          (λ row. not (owns token current.claim_token) || owns token row.claim_token)
          change
          t)
      ≡ (if str_eq delivery.id j then some (change current) else lookup j t)
lookup-recorded delivery token now policy result current change t j found works =
    let keeps = λ (r : WebhookDelivery).
      ap (λ f. (applied f r).id) (sym works)
      ∙ transition-id (owns token current.claim_token) now policy result current r in
    ground (
      arith,
      find-update_at (λ x. x.id) delivery.id
          (λ row. not (owns token current.claim_token) || owns token row.claim_token) change keeps j
          t,
      eq_iff delivery.id j,
      found,
    )
