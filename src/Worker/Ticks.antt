-- ===== src/Worker/Ticks.antt =====
-- A tick of the worker as transactions of the system: `process_batch` of hymical_forms/worker.py.
use forms.Prelude.{
  ltb, ◌+◌, ℕ, suc, ◌<◌, Bool, false, not, ◌||◌, List, [], ◌∷◌, ◌==◌, length, All, Bool-cases, inl,
  inr,
}
use forms.Exceptions.{Result-cases, is_ok, committed, ◌>>=◌}
use forms.Webhooks.{RetryPolicy, DeliveryResult}
use forms.Models.{instant_limit, Instant, WebhookDelivery, Db}
use forms.Storage.Deliveries.{claim_due_deliveries, complete_attempt}
use forms.System.{claim, complete, Reach, here, next, Reach-trans}
use forms.Worker.{
  Circumstances, current_job, record_each, Tick, run_worker, load_submissions, bodies, attempts,
  process_batch,
}

module _ (around : Circumstances) (policy : RetryPolicy)
    (others : (i : ℕ) (db : Db) → Reach policy db (around.meanwhile i db)) where
  record_each-Reach :
      (now : Instant) (i : ℕ) (expired : Bool) (results : List (WebhookDelivery × DeliveryResult))
      (db : Db)
      → Reach policy db (record_each around now policy i expired results db)
  unfolding record_each
  record_each-Reach now i expired [] db = here
  record_each-Reach now i expired ((job, result) ∷ rest) db =
      let found = around.meanwhile i db in
      let job' = current_job expired found job in
      let id = around.attempt_ids i in
      let outcome = complete_attempt id job' result now policy job.claim_token found in
      Reach-trans policy db (committed found outcome) _
        (next (others i db) (complete found id job' result now job.claim_token))
        (record_each-Reach now (suc i) (expired || not (is_ok outcome)) rest
          (committed found outcome))

  -- A tick of a worker, the transactions of the others between its own included.
  pub process_batch-Reach :
      (now lease limit deadline : ℕ) (seen : List WebhookDelivery) (db : Db)
      → 0 < lease
      → Reach policy db (process_batch around now lease limit deadline policy seen db).1
  unfolding process_batch
  process_batch-Reach now lease limit deadline seen db pos =
      let (claimed, claims) = claim_due_deliveries around.mint now lease limit seen db in
      let loaded = around.meanwhile 0 claims in
      let first : Reach policy db claims =
        next here (claim db around.mint now lease limit seen pos) in
      let before : Reach policy db loaded =
        Reach-trans policy db claims loaded first (others 0 claims) in
      let sent =
        load_submissions loaded claimed >>= λ submissions. bodies around.wire submissions claimed in
      elim (Bool-cases (ltb (now + lease) instant_limit)) [
        | inr late ↦ rw late here
        | inl early ↦ elim (Bool-cases (length claimed == 0)) [
          | inl none_due ↦ rw (early, none_due) first
          | inr some_due ↦ elim (Result-cases sent) [
            | inl (requests, e) ↦
                rw (early, some_due, e)
                  (Reach-trans policy db loaded _ before
                    (record_each-Reach now 1 false (attempts around deadline requests) loaded))
            | inr (raised, e) ↦ rw (early, some_due, e) before
          ]
        ]
      ]

-- What the other processes do during a tick, and have done since the one before, are
-- transactions of the system.
pub record IsShared (policy : RetryPolicy) (tick : Tick) : Type 0 where
  pub during : (i : ℕ) (db : Db) → Reach policy db (tick.around.meanwhile i db)
  pub since : (db : Db) → Reach policy db (tick.since db)

-- Where the lease is positive and the other processes only make transactions of the system, a run
-- of the worker, of any number of ticks and with the transactions of the others between its own,
-- is a history of transactions of the system; this whatever the destinations answer, whether or
-- not a result can be recorded, and also where a tick raises.
pub run_worker-Reach :
    (lease limit deadline : ℕ) (policy : RetryPolicy) (ticks : List Tick) (db : Db)
    → 0 < lease
    → All (IsShared policy) ticks
    → Reach policy db (run_worker lease limit deadline policy ticks db).1
unfolding run_worker
run_worker-Reach lease limit deadline policy [] db pos h = here
run_worker-Reach lease limit deadline policy (tick ∷ rest) db pos (shared, others) =
    let start = tick.since db in
    let after =
      (process_batch tick.around tick.now lease limit deadline policy tick.seen start).1 in
    Reach-trans policy db start _ (shared.since db) (
      Reach-trans policy start after _
        (process_batch-Reach tick.around policy shared.during tick.now lease limit deadline
          tick.seen start pos)
        (run_worker-Reach lease limit deadline policy rest after pos others))
