-- ===== src/Storage/Deliveries/Settling.antt =====
-- One claim settles its delivery once: `complete_attempt` of hymical_forms/storage.py.
use forms.Prelude.{eq_refl, String, ◌≡◌, refl, sym, ap, ◌∙◌, true, false, Option, none, some, arith}
use forms.Exceptions.{ok}
use forms.Webhooks.{DeliveryResult, RetryPolicy}
use forms.Models.{Instant, WebhookDelivery, Db}
use forms.Storage.Deliveries.{owns, complete_attempt, CompletedAttempt}
use forms.Storage.Deliveries.ClaimLoop.{lookup}
use forms.Storage.Deliveries.Fencing.{verdict, complete_attempt-verdict}
use forms.Storage.Deliveries.Recording.{complete_attempt-IsRecorded}

verdict_clears :
    (now : Instant) (policy : RetryPolicy) (result : DeliveryResult) (row : WebhookDelivery)
    → (verdict now policy result row).claim_token ≡ none
verdict_clears now policy result row = ground arith

owns-none : (token : Option String) → owns token none ≡ false
owns-none none = refl
owns-none (some t) = refl

-- A claim settles its delivery once: after a completion that owned the claim, and as long as the
-- row of the delivery is as that left it, whatever else has changed, no completion of the delivery
-- under the same token owns it, whatever row was loaded and whatever policy and result it has.
pub settles_once :
    (attempt_id attempt_id' : String) (delivery delivery' : WebhookDelivery)
    (result result' : DeliveryResult) (now now' : Instant) (policy policy' : RetryPolicy)
    (claim_token : Option String) (db : Db) (current : WebhookDelivery) (c c' : CompletedAttempt)
    (db' since db'' : Db)
    → lookup delivery.id db.deliveries ≡ some current
    → complete_attempt attempt_id delivery result now policy claim_token db ≡ ok (c, db')
    → c.owned ≡ true
    → delivery'.id ≡ delivery.id
    → lookup delivery.id since.deliveries ≡ lookup delivery.id db'.deliveries
    → complete_attempt attempt_id' delivery' result' now' policy' claim_token since ≡ ok (c', db'')
    → c'.owned ≡ false
settles_once attempt_id attempt_id' delivery delivery' result result' now now' policy policy' token
      db current c c' db' since db'' found first owned same unchanged second =
    let r =
      complete_attempt-IsRecorded delivery result now policy token db current found c db' attempt_id
        first in
    let (_, rows, _) =
      complete_attempt-verdict attempt_id delivery result now policy token db current found c db'
        delivery.id (sym r.owned ∙ owned) first in
    let after : lookup delivery'.id since.deliveries ≡ some (verdict now policy result current) =
      ap (λ k. lookup k since.deliveries) same ∙ unchanged ∙ rows ∙ rw (eq_refl delivery.id) refl in
    let r' =
      complete_attempt-IsRecorded delivery' result' now' policy' token since
        (verdict now policy result current) after c' db'' attempt_id' second in
    r'.owned ∙ ap (owns token) (verdict_clears now policy result current) ∙ owns-none token
