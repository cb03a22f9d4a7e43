-- ===== src/Consistency/Completing.antt =====
-- Completions keep the store consistent.
use forms.Prelude.{
  ℕ, ◌+◌, String, ◌≡◌, refl, sym, ap, subst, ◌∙◌, Bool, true, false, not, ◌||◌, Option, none, some,
  List, [], ◌∷◌, arith, is_some, str_eq, eq_iff, eq_refl, if◌then◌else◌, Bool-cases, inl, inr,
}
use mathlib.Core.Path.{subst₂}
use native.Mathlib.Numerals.{add-one}
use forms.Exceptions.{Result, ok, committed, is_ok}
use forms.Webhooks.{DeliveryResult, RetryPolicy}
use forms.Models.{Instant, WebhookDelivery, DeliveryAttempt, Db}
use forms.Table.{find, update_at}
use forms.Storage.Deliveries.{owns, settle, transition, complete_attempt, CompletedAttempt}
use forms.Storage.Deliveries.ClaimLoop.{lookup}
use forms.Storage.Deliveries.Completions.{
  applied, IsRecordOf, Completed, raised, recorded, complete_attempt-Completed, lookup-recorded,
}
use forms.Consistency.{IsSound, IsConsistent, numbers, count_down}

applied-IsSound :
    (token : Option String) (now : Instant) (policy : RetryPolicy) (result : DeliveryResult)
    (r : WebhookDelivery)
    → IsSound r
    → IsSound (applied (transition (owns token r.claim_token) now policy result r) r)
unfolding transition settle
applied-IsSound token now policy result r h = ground arith

applied-attempts :
    (owned : Bool) (now : Instant) (policy : RetryPolicy) (result : DeliveryResult)
    (r : WebhookDelivery)
    → is_ok (transition owned now policy result r) ≡ true
    → let x = applied (transition owned now policy result r) r in
      (x.attempts ≡ r.attempts + 1) × (x.submission_id ≡ r.submission_id)
unfolding transition settle
applied-attempts owned now policy result r h = ground arith

count_down-add : (n : ℕ) → count_down (n + 1) ≡ (n + 1) ∷ count_down n
count_down-add n = rw add-one refl

numbers-cons :
    (j : String) (a : DeliveryAttempt) (t : List DeliveryAttempt)
    → numbers j (a ∷ t)
      ≡ (if str_eq a.delivery_id j then a.attempt_number ∷ numbers j t else numbers j t)
unfolding numbers
numbers-cons j a t = refl

-- The store after a completion that was recorded.
module _ (delivery : WebhookDelivery) (result : DeliveryResult) (now : Instant)
    (policy : RetryPolicy) (token : Option String) (db : Db) (current : WebhookDelivery)
    (change : WebhookDelivery → WebhookDelivery) (a : DeliveryAttempt)
    (found : lookup delivery.id db.deliveries ≡ some current)
    (works : transition (owns token current.claim_token) now policy result current ≡ ok change)
    (rec : IsRecordOf delivery result now current a) (h : IsConsistent db) where
  abbrev pub after : Db
  after = record db {
    attempts = a ∷ db.attempts;
    deliveries =
        update_at (λ x. x.id) delivery.id
          (λ row. not (owns token current.claim_token) || owns token row.claim_token) change
          db.deliveries;
  }

  changed-IsSound : IsSound (change current)
  changed-IsSound =
      subst (λ t. IsSound (applied t current)) works
        (applied-IsSound token now policy result current (h.sound delivery.id current found))

  changed_counts :
      ((change current).attempts ≡ current.attempts + 1)
      × ((change current).submission_id ≡ current.submission_id)
  changed_counts =
      subst
        (λ t.
          ((applied t current).attempts ≡ current.attempts + 1)
          × ((applied t current).submission_id ≡ current.submission_id))
        works
        (applied-attempts (owns token current.claim_token) now policy result current
          (ap is_ok works))

  -- The row of a key is the changed one or an old one.
  pub by_key {ℓ} :
      (P : String → WebhookDelivery → Type ℓ)
      → P delivery.id (change current)
      → ((j : String) (r : WebhookDelivery)
          → str_eq delivery.id j ≡ false
          → lookup j db.deliveries ≡ some r
          → P j r)
      → (j : String) (r : WebhookDelivery) → lookup j after.deliveries ≡ some r
      → P j r
  by_key P new old j r e =
      let step =
        lookup-recorded delivery token now policy result current change db.deliveries j found
          works in
      elim (Bool-cases (str_eq delivery.id j)) [
        | inl here ↦
            let same : change current ≡ r = cc (rw here at step, e) in
            subst₂ P ((eq_iff delivery.id j).0 here) same new
        | inr other ↦ old j r other (sym (rw other at step) ∙ e)
      ]

  recorded-audit :
      (j : String) (r : WebhookDelivery)
      → lookup j after.deliveries ≡ some r
      → numbers j after.attempts ≡ count_down r.attempts
  recorded-audit =
      by_key (λ j r. numbers j after.attempts ≡ count_down r.attempts)
        (numbers-cons delivery.id a db.attempts
          ∙ rw
              (
                rec.delivery_id,
                eq_refl delivery.id,
                rec.attempt_number,
                changed_counts.0,
                count_down-add current.attempts,
                h.audit delivery.id current found,
              )
              refl)
        (λ j r other e. numbers-cons j a db.attempts ∙ rw (rec.delivery_id, other) (h.audit j r e))

  recorded-unborn : (j : String) → lookup j after.deliveries ≡ none → numbers j after.attempts ≡ []
  recorded-unborn j e =
      let step =
        lookup-recorded delivery token now policy result current change db.deliveries j found
          works in
      elim (Bool-cases (str_eq delivery.id j)) [
        | inl here ↦ cc (rw here at step, e)
        | inr other ↦
            numbers-cons j a db.attempts
            ∙ rw (rec.delivery_id, other) (h.unborn j (sym (rw other at step) ∙ e))
      ]

  recorded-IsConsistent : IsConsistent after
  recorded-IsConsistent = record {
    sound = by_key (λ j r. IsSound r) changed-IsSound (λ j r other e. h.sound j r e);
    audit = recorded-audit;
    unborn = recorded-unborn;
    unique = h.unique;
    linked = λ j r s e.
        by_key
          (λ j x. x.submission_id ≡ some s → is_some (find (λ y. y.id) s db.submissions) ≡ true)
          (λ link. h.linked delivery.id current s found (sym changed_counts.1 ∙ link))
          (λ j x other was. h.linked j x s was) j r e;
  }

-- Recording an attempt keeps the store consistent, whatever row the worker had loaded, whichever
-- claim it presents and whatever the attempt produced; also where it raises and is rolled back.
pub complete_attempt-IsConsistent :
    (attempt_id : String) (delivery : WebhookDelivery) (result : DeliveryResult) (now : Instant)
    (policy : RetryPolicy) (token : Option String) (db : Db)
    → IsConsistent db
    → IsConsistent (committed db (complete_attempt attempt_id delivery result now policy token db))
complete_attempt-IsConsistent attempt_id delivery result now policy token db h =
    go (complete_attempt attempt_id delivery result now policy token db)
      (complete_attempt-Completed attempt_id delivery result now policy token db)
  where
    go :
        (r : Result (CompletedAttempt × Db))
        → Completed delivery result now policy token db r
        → IsConsistent (committed db r)
    go r (raised fails same) = subst IsConsistent (sym same) h
    go r (recorded current change a c found works rec owned state att is) =
        subst (λ x. IsConsistent (committed db x)) (sym is)
          (recorded-IsConsistent delivery result now policy token db current change a found works
            rec h)
