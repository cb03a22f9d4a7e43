-- ===== src/System/Allowance.antt =====
-- How often a delivery is attempted: the retry allowance over any history of transactions.
use forms.Prelude.{
  ℕ, zero, suc, ◌+◌, ◌<◌, ◌≤◌, String, true, false, Option, some, List, ◌≡◌, sym, ap, subst, ◌∙◌,
  arith, ltb, ◌==◌, length, filter, elem, Bool-cases, inl, inr,
}
use forms.Exceptions.{Result, committed}
use forms.Webhooks.{DeliveryResult, RetryPolicy, WebhookTarget, is_terminal, is_exhausted}
use forms.Ingestion.{Submission}
use forms.Models.{Instant, Endpoint, WebhookDelivery, Db}
use forms.Table.{find}
use forms.Storage.Deliveries.{
  due_condition, take_claim, claim_due_deliveries, owns, settle, transition, complete_attempt,
  CompletedAttempt, requeue_failed_delivery,
}
use forms.Storage.Deliveries.ClaimLoop.{lookup}
use forms.Storage.Deliveries.Claims.{claim_due_deliveries-Fate}
use forms.Storage.Deliveries.Completions.{
  applied, Completed, raised, recorded, complete_attempt-Completed,
}
use forms.Storage.Submissions.{StoredSubmission, new_delivery, store_submission}
use forms.Storage.Submissions.Outcomes.{Stored, kept, added, store_submission-Stored}
use forms.Storage.Sweep.{sweep, expired_ids, delete_submissions, delete_expired_submissions}
use forms.Storage.RateLimits.{consume_rate_limit, delete_expired_rate_limit_counters}
use forms.Consistency.{IsConsistent, IsSound}
use forms.Consistency.Claiming.{fate_keeps}
use forms.Consistency.Completing.{by_key}
use forms.Consistency.Replaying.{requeue_keeps}
use forms.Consistency.Storing.{owed_by_key}
use forms.Consistency.Sweeping.{unlinked_by_key}
use forms.System.{
  Step, store, claim, complete, replay, count, forget, configure, Reach, here, next, new_db,
}
use forms.System.Histories.{Reach-IsConsistent}

-- A delivery has used at most its allowance, and one that is not finished has some of it left.
pub record IsWithin (policy : RetryPolicy) (r : WebhookDelivery) : Type 0 where
  pub used : r.cycle_attempts ≤ policy.max_attempts
  pub left : is_terminal r.state ≡ false → r.cycle_attempts < policy.max_attempts

abbrev pub AllWithin : RetryPolicy → Db → Type 0
AllWithin policy db =
    (j : String) (r : WebhookDelivery) → lookup j db.deliveries ≡ some r → IsWithin policy r

applied-IsWithin :
    (policy : RetryPolicy) (token : Option String) (now : Instant) (result : DeliveryResult)
    (r : WebhookDelivery)
    → IsSound r
    → IsWithin policy r
    → IsWithin policy (applied (transition (owns token r.claim_token) now policy result r) r)
unfolding transition settle is_exhausted
applied-IsWithin policy token now result r s h = ground arith

take_claim-IsWithin :
    (policy : RetryPolicy) (now expires_at : Instant) (token : String) (r : WebhookDelivery)
    → due_condition now r ≡ true
    → IsWithin policy r
    → IsWithin policy (take_claim expires_at token r)
unfolding due_condition
take_claim-IsWithin policy now expires_at token r due h = ground arith

module _ (policy : RetryPolicy) (positive : 0 < policy.max_attempts) where
  Completed-AllWithin :
      (delivery : WebhookDelivery) (result : DeliveryResult) (now : Instant) (token : Option String)
      (db : Db) (r : Result (CompletedAttempt × Db))
      → IsConsistent db
      → AllWithin policy db
      → Completed delivery result now policy token db r
      → AllWithin policy (committed db r)
  Completed-AllWithin delivery result now token db r c h (raised fails same) =
      subst (AllWithin policy) (sym same) h
  Completed-AllWithin delivery result now token db r c h
        (recorded current change a out found works rec owned state att is) =
      subst (λ x. AllWithin policy (committed db x)) (sym is)
        (by_key delivery result now policy token db current change a found works rec c
          (λ j x. IsWithin policy x)
          (subst (λ t. IsWithin policy (applied t current)) works
            (applied-IsWithin policy token now result current (c.sound delivery.id current found)
              (h delivery.id current found)))
          (λ j x other was. h j x was))

  stored-AllWithin :
      (submission : Submission) (delivery_id : String) (now : Instant)
      (webhook : Option WebhookTarget) (key fingerprint : Option String) (db : Db)
      (r : Result (StoredSubmission × Db))
      → AllWithin policy db
      → Stored submission delivery_id now webhook key fingerprint db r
      → AllWithin policy (committed db r)
  unfolding new_delivery
  stored-AllWithin submission delivery_id now webhook key fingerprint db r h (kept same _) =
      subst (AllWithin policy) (sym same) h
  stored-AllWithin submission delivery_id now webhook key fingerprint db r h (added db' add is) =
      subst (AllWithin policy) (sym (ap (committed db) is ∙ add.is)) (
        owed_by_key (λ j x. IsWithin policy x) submission delivery_id now webhook db.deliveries
          (λ w e. record { used = omega arith; left = λ live. positive }) h)

  sweep-AllWithin :
      (before : Instant) (n rounds removed : ℕ) (db : Db)
      → AllWithin policy db
      → AllWithin policy (sweep before n rounds removed db).1
  unfolding sweep delete_submissions
  sweep-AllWithin before n zero removed db h = h
  sweep-AllWithin before n (suc rounds) removed db h =
      let ids = expired_ids before n db in
      let db' = delete_submissions ids db in
      let h' : AllWithin policy db' = λ j.
        unlinked_by_key (IsWithin policy) ids db.deliveries j
          (λ d found. record { used = (h j d found).used; left = (h j d found).left }) in
      elim (Bool-cases (length ids == 0)) [
        | inl done ↦ rw done h
        | inr more ↦ elim (Bool-cases (ltb (length ids) n)) [
          | inl last ↦ rw (more, last) h'
          | inr full ↦
              rw (more, full)
                (sweep-AllWithin before n rounds
                  (removed + length (filter (λ r. elem r.id ids) db.submissions)) db' h')
        ]
      ]

  Step-AllWithin :
      {db db' : Db}
      → Step policy db db'
      → IsConsistent db
      → AllWithin policy db
      → AllWithin policy db'
  unfolding claim_due_deliveries requeue_failed_delivery delete_expired_submissions
      consume_rate_limit delete_expired_rate_limit_counters
  Step-AllWithin (store db d seen s now k f w) c h =
      stored-AllWithin s d now w k f db (store_submission d seen s now k f w db) h
        (store_submission-Stored s d now w db seen k f)
  Step-AllWithin (claim db mint now lease limit seen pos) c h = λ j r e.
      fate_keeps (IsWithin policy)
        (λ old token due. take_claim-IsWithin policy now (now + lease) token old due)
        (claim_due_deliveries-Fate mint now lease limit seen db j pos) (h j) r e
  Step-AllWithin (complete db a d result now token) c h =
      Completed-AllWithin d result now token db (complete_attempt a d result now policy token db) c
        h (complete_attempt-Completed a d result now policy token db)
  Step-AllWithin (replay db k now) c h =
      requeue_keeps (λ j x. IsWithin policy x) k now db.deliveries
        (λ j x y w. record { used = omega arith; left = λ live. positive }) h
  Step-AllWithin (Step.sweep db before n rounds) c h = sweep-AllWithin before n rounds 0 db h
  Step-AllWithin (count db l s w) c h = h
  Step-AllWithin (forget db before) c h = h
  Step-AllWithin (configure db endpoints keys) c h = h

  -- With an allowance of at least one attempt that all workers share, after any history from a
  -- database with endpoints only, no delivery has used more attempts than its allowance since it
  -- was queued or last replayed, and one that is pending or claimed has at least one left.
  pub Reach-AllWithin :
      (endpoints : List Endpoint) (db : Db)
      → Reach policy (new_db endpoints) db
      → AllWithin policy db
  unfolding find
  Reach-AllWithin endpoints db here = λ j r e. cc
  Reach-AllWithin endpoints db (next r st) =
      Step-AllWithin st (Reach-IsConsistent policy endpoints _ r) (Reach-AllWithin endpoints _ r)
