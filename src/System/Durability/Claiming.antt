-- ===== src/System/Durability/Claiming.antt =====
-- Claims and replays keep a delivery and its submission.
use forms.Prelude.{
  ℕ, ◌+◌, ◌<◌, String, ◌≡◌, refl, sym, subst, ◌∙◌, true, ◌&&◌, List, arith, str_eq, Bool-cases, inl,
  inr,
}
use forms.Models.{Instant, WebhookDelivery, SubmissionRow, Db}
use forms.Storage.Deliveries.{
  due_condition, take_claim, claim_due_deliveries, is_replayable, requeue, requeue_failed_delivery,
}
use forms.Storage.Deliveries.ClaimLoop.{lookup, Fate, kept, taken}
use forms.Storage.Deliveries.Claims.{claim_due_deliveries-Fate}
use forms.Consistency.Replaying.{lookup-requeue}
use forms.System.Durability.{IsLater, IsOwed, Holds, onward, same_row}

take_claim-IsLater :
    (now expires_at : Instant) (token : String) (r : WebhookDelivery)
    → due_condition now r ≡ true
    → IsLater r (take_claim expires_at token r)
unfolding due_condition
take_claim-IsLater now expires_at token r due = record {
  endpoint = refl;
  destination = refl;
  secret = refl;
  history = omega arith;
  settled = λ h. ground arith;
}

requeue-IsLater :
    (now : Instant) (r : WebhookDelivery) → is_replayable r ≡ true → IsLater r (requeue now r)
requeue-IsLater now r y = record {
  endpoint = refl;
  destination = refl;
  secret = refl;
  history = omega arith;
  settled = λ h. ground arith;
}

module _ (j : String) (a : WebhookDelivery) (x : SubmissionRow) (db : Db)
    (o : IsOwed j a x db) where
  pub claim_due_deliveries-IsOwed :
      (mint : ℕ → String) (now lease limit : ℕ) (seen : List WebhookDelivery)
      → 0 < lease
      → IsOwed j a x (claim_due_deliveries mint now lease limit seen db).1
  unfolding claim_due_deliveries
  claim_due_deliveries-IsOwed mint now lease limit seen pos =
      go (claim_due_deliveries-Fate mint now lease limit seen db j pos)
    where
      after : Db
      after = (claim_due_deliveries mint now lease limit seen db).1

      go :
          Fate now (now + lease) (lookup j db.deliveries) (lookup j after.deliveries)
          → IsOwed j a x after
      go (kept same) = same_row j a x o same (λ h. h)
      go (taken old token was due is) =
          let e : old ≡ o.row = cc (was, o.stored) in
          onward j a x o (take_claim (now + lease) token old) is
            (subst (λ r. IsLater r (take_claim (now + lease) token old)) e
              (take_claim-IsLater now (now + lease) token old due))
            (λ p h. subst (λ r. Holds r x db) (sym e) h)

  pub requeue_failed_delivery-IsOwed :
      (k : String) (now : Instant) → IsOwed j a x (requeue_failed_delivery k now db).1
  unfolding requeue_failed_delivery
  requeue_failed_delivery-IsOwed k now =
      let step = lookup-requeue k now j db.deliveries in
      elim (Bool-cases (str_eq k j && is_replayable o.row)) [
        | inl both ↦
            onward j a x o (requeue now o.row) (step ∙ ground (arith, o.stored, both))
              (requeue-IsLater now o.row (ground (arith, both))) (λ p h. h)
        | inr other ↦ same_row j a x o (step ∙ ground (arith, o.stored, other)) (λ h. h)
      ]
