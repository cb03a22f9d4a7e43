-- ===== src/Storage/Deliveries/Recording.antt =====
-- The effect of a completion that raised nothing: `complete_attempt` of hymical_forms/storage.py.
use forms.Prelude.{
  if◌then◌else◌, str_eq, String, ◌≡◌, refl, sym, ap, subst, ◌∙◌, not, ◌||◌, Option, some, ◌∷◌,
  arith, eq_refl,
}
use forms.Exceptions.{value_or, Result, ok}
use forms.Webhooks.{DeliveryResult, RetryPolicy}
use forms.Models.{Instant, WebhookDelivery, Db}
use forms.Table.{update_at}
use forms.Storage.Deliveries.{owns, transition, complete_attempt, CompletedAttempt}
use forms.Storage.Deliveries.ClaimLoop.{lookup}
use forms.Storage.Deliveries.Completions.{
  Completed, raised, recorded, IsRecordOf, complete_attempt-Completed, lookup-recorded,
}

-- What a completion that raised nothing has done.
pub record IsRecorded (delivery : WebhookDelivery) (result : DeliveryResult) (now : Instant)
    (policy : RetryPolicy) (token : Option String) (db : Db) (current : WebhookDelivery)
    (c : CompletedAttempt) (db' : Db) : Type 0 where
  pub change : WebhookDelivery → WebhookDelivery
  pub works : transition (owns token current.claim_token) now policy result current ≡ ok change
  pub owned : c.owned ≡ owns token current.claim_token
  pub state : c.state ≡ (change current).state
  pub attempt : IsRecordOf delivery result now current c.attempt
  pub row : lookup delivery.id db'.deliveries ≡ some (change current)
  pub rows :
      (j : String)
      → lookup j db'.deliveries
        ≡ (if str_eq delivery.id j then some (change current) else lookup j db.deliveries)
  pub attempts : db'.attempts ≡ c.attempt ∷ db.attempts
  pub submissions : db'.submissions ≡ db.submissions

module _ (delivery : WebhookDelivery) (result : DeliveryResult) (now : Instant)
    (policy : RetryPolicy) (token : Option String) (db : Db) (current : WebhookDelivery)
    (found : lookup delivery.id db.deliveries ≡ some current) (c : CompletedAttempt)
    (db' : Db) where
  Completed-IsRecorded :
      (r : Result (CompletedAttempt × Db))
      → Completed delivery result now policy token db r
      → r ≡ ok (c, db')
      → IsRecorded delivery result now policy token db current c db'
  Completed-IsRecorded r (raised e same) is = cc
  Completed-IsRecorded r (recorded current' change a c' found' works rec owned state att e) is =
      let table =
        update_at (λ (x : WebhookDelivery). x.id) delivery.id
          (λ row. not (owns token current'.claim_token) || owns token row.claim_token) change
          db.deliveries in
      let p = ap (value_or (c, db')) (sym e ∙ is) in
      let same : current' ≡ current = cc in
      subst (λ q. IsRecorded delivery result now policy token db current q.0 q.1) p
        (subst
          (λ x.
            IsRecorded delivery result now policy token db x c'
              (record db { attempts = a ∷ db.attempts; deliveries = table }))
          same
          (record {
            change = change;
            works = works;
            owned = owned;
            state = state;
            attempt = subst (IsRecordOf delivery result now current') (sym att) rec;
            row = ground (
              arith,
              lookup-recorded delivery token now policy result current' change db.deliveries
                  delivery.id found' works,
              eq_refl delivery.id,
            );
            rows = λ j.
                lookup-recorded delivery token now policy result current' change db.deliveries j
                  found' works;
            attempts = ap (λ x. x ∷ db.attempts) (sym att);
            submissions = refl;
          }))

  pub complete_attempt-IsRecorded :
      (attempt_id : String)
      → complete_attempt attempt_id delivery result now policy token db ≡ ok (c, db')
      → IsRecorded delivery result now policy token db current c db'
  complete_attempt-IsRecorded attempt_id is =
      Completed-IsRecorded (complete_attempt attempt_id delivery result now policy token db)
        (complete_attempt-Completed attempt_id delivery result now policy token db) is
