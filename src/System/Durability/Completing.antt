-- ===== src/System/Durability/Completing.antt =====
-- A completion, of this delivery or of another, keeps a delivery and its submission.
use forms.Prelude.{
  String, ◌≡◌, refl, sym, ap, subst, ◌∙◌, true, Option, arith, str_eq, eq_iff, Bool-cases, inl, inr,
}
use forms.Exceptions.{Result, committed, is_ok}
use forms.Webhooks.{DeliveryResult, RetryPolicy}
use forms.Models.{Instant, WebhookDelivery, SubmissionRow, Db}
use forms.Storage.Deliveries.{owns, settle, transition, complete_attempt, CompletedAttempt}
use forms.Storage.Deliveries.Completions.{
  applied, Completed, raised, recorded, complete_attempt-Completed, lookup-recorded,
}
use forms.Consistency.{IsSound, IsConsistent}
use forms.System.Durability.{IsLater, IsOwed, onward, same_row}

-- A delivered row is owned by no claim, so what a completion does to it is to count an attempt.
transition-IsLater :
    (token : Option String) (now : Instant) (policy : RetryPolicy) (result : DeliveryResult)
    (r : WebhookDelivery)
    → IsSound r
    → is_ok (transition (owns token r.claim_token) now policy result r) ≡ true
    → let b = applied (transition (owns token r.claim_token) now policy result r) r in
      IsLater r b × (b.submission_id ≡ r.submission_id)
unfolding transition settle
transition-IsLater token now policy result r h works = (
  record {
    endpoint = ground arith;
    destination = ground arith;
    secret = ground arith;
    history = ground arith;
    settled = λ done. ground arith;
  },
  ground arith,
)

-- A completion, of whatever row, by whatever claim and with whatever result, in a consistent
-- database.
pub complete_attempt-IsOwed :
    (j : String) (a : WebhookDelivery) (x : SubmissionRow) (attempt_id : String)
    (delivery : WebhookDelivery) (result : DeliveryResult) (now : Instant) (policy : RetryPolicy)
    (token : Option String) (db : Db)
    → IsConsistent db
    → IsOwed j a x db
    → IsOwed j a x (committed db (complete_attempt attempt_id delivery result now policy token db))
complete_attempt-IsOwed j a x attempt_id delivery result now policy token db h o =
    go (complete_attempt attempt_id delivery result now policy token db)
      (complete_attempt-Completed attempt_id delivery result now policy token db)
  where
    go :
        (r : Result (CompletedAttempt × Db))
        → Completed delivery result now policy token db r
        → IsOwed j a x (committed db r)
    go r (raised fails same) = subst (IsOwed j a x) (sym same) o
    go r (recorded current change att c found works rec owned state same is) =
        let step =
          lookup-recorded delivery token now policy result current change db.deliveries j found
            works in
        subst (λ y. IsOwed j a x (committed db y)) (sym is)
          (elim (Bool-cases (str_eq delivery.id j)) [
            | inr other ↦ same_row j a x o (step ∙ rw other refl) (λ k. k)
            | inl here ↦
                let e : delivery.id ≡ j = (eq_iff delivery.id j).0 here in
                let mine : current ≡ o.row = cc (found, o.stored, e) in
                let (later, link) =
                  subst
                    (λ t.
                      IsLater current (applied t current)
                      × ((applied t current).submission_id ≡ current.submission_id))
                    works
                    (transition-IsLater token now policy result current
                      (h.sound delivery.id current found) (ap is_ok works)) in
                onward j a x o (change current) (step ∙ rw here refl)
                  (subst (λ r. IsLater r (change current)) mine later)
                  (λ p (named, there). (link ∙ ap (λ r. r.submission_id) mine ∙ named, there))
          ])
