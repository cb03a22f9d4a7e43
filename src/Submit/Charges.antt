-- ===== src/Submit/Charges.antt =====
-- What a public submission costs and what a refused one leaves: `submit` of
-- hymical_forms/api/submissions.py.
use forms.Prelude.{
  ℕ, ◌+◌, ◌-◌, ◌*◌, ◌<◌, max, String, ◌≡◌, refl, ap, ◌∙◌, Bool, true, false, Option, arith, ltb,
  eq_refl, Bool-cases, inl, inr,
}
use forms.Exceptions.{Exception, ◌>>=◌, Result, ok, err, committed, refuse}
use forms.Models.{Instant, before_epoch, Endpoint, ip, endpoint, Db}
use forms.Ingestion.{Submission}
use forms.RateLimit.{window_start, second}
use forms.RateLimit.Windows.{window_start_bounds}
use forms.Storage.RateLimits.{consume_rate_limit}
use forms.Storage.RateLimits.Budgets.{
  spent, consume_rate_limit-spent, delete_expired_rate_limit_counters-spent,
}
use forms.Storage.Submissions.{StoredSubmission, store_submission}
use forms.Storage.Submissions.Outcomes.{Stored, kept, added, store_submission-Stored}
use forms.Config.{Settings, ip_rate_limit, endpoint_rate_limit}
use forms.Submit.{
  Library, address_subject, Request, SubmissionAccepted, consume, sweep_old_windows, charge_address,
  charge_endpoint, sweep_cutoff, fingerprint_of, read_submission, store_read, answered, with_state,
  and_then, accept, routed, submit, resolve_endpoint, webhook_of,
}

with_state-committed {ℓ} :
    {A : Type ℓ} (db : Db) (r : Result (A × Db)) → (with_state db r).1 ≡ committed db r
with_state-committed db (ok a) = refl
with_state-committed db (err e) = refl

answered-committed :
    (db : Db) (r : Result (StoredSubmission × Db)) → committed db (answered r) ≡ committed db r
answered-committed db (ok a) = refl
answered-committed db (err e) = refl

stored-counters :
    (submission : Submission) (delivery_id : String) (seen db : Db)
    (key fingerprint : Option String) (form : Endpoint)
    → (committed db (
        store_submission delivery_id seen submission submission.received_at key fingerprint
          (webhook_of form.webhook_url form.webhook_secret)
          db)).counters
      ≡ db.counters
stored-counters submission delivery_id seen db key fingerprint form = go (
    store_submission-Stored submission delivery_id submission.received_at
      (webhook_of form.webhook_url form.webhook_secret) db seen key fingerprint)
  where
    go :
        {r : Result (StoredSubmission × Db)}
        → Stored submission delivery_id submission.received_at
            (webhook_of form.webhook_url form.webhook_secret)
            key
            fingerprint
            db
            r
        → (committed db r).counters ≡ db.counters
    go (kept same replay) = ap (λ d. d.counters) same
    go (added db' add is) = ap (λ d. d.counters) (ap (committed db) is ∙ add.is)

finished-counters :
    (lib : Library) (seen : Db) (delivery_id : String) (form : Endpoint) (db : Db)
    (read : Result (Option String × Submission))
    → (with_state db (do r ← read; store_read lib seen delivery_id form r db)).1.counters
      ≡ db.counters
unfolding store_read
finished-counters lib seen delivery_id form db (err e) = refl
finished-counters lib seen delivery_id form db (ok (key, s)) = go (fingerprint_of lib key s.fields)
  where
    go :
        (print : Result (Option String))
        → (with_state db (do
          fingerprint ← print
          answered (
              store_submission delivery_id seen s s.received_at key fingerprint
                (webhook_of form.webhook_url form.webhook_secret)
                db))).1.counters
          ≡ db.counters
    go (err e) = refl
    go (ok fingerprint) =
        let stored =
          store_submission delivery_id seen s s.received_at key fingerprint
            (webhook_of form.webhook_url form.webhook_secret) db in
        ap (λ d. d.counters)
          (with_state-committed db (answered stored) ∙ answered-committed db stored)
        ∙ stored-counters s delivery_id seen db key fingerprint form

-- What a charge leaves of a count: whether it refuses or not, what follows keeps the count.
charge-keeps {ℓ} :
    {B : Type ℓ} (Q : Db → ℕ) (n : ℕ) (b : Bool) (e : Exception) (db : Db) (g : Db → Result B × Db)
    → Q db ≡ n
    → ((d : Db) → Q (g d).1 ≡ Q d)
    → Q (and_then (refuse b e, db) g).1 ≡ n
charge-keeps Q n true e db g h k = h
charge-keeps Q n false e db g h k = k db ∙ h

module _ (lib : Library) (settings : Settings) (request : Request) (sweeps : Bool) (seen : Db)
    (delivery_id submission_id : String) (now received_at : Instant)
    (enabled : settings.rate_limit_enabled ≡ true)
    (window : 0 < settings.rate_limit_ip_window_seconds) where
  abbrev start : Instant
  start = window_start now settings.rate_limit_ip_window_seconds

  sweep_keeps :
      (s : String) (db : Db)
      → spent ip s start (sweep_old_windows sweeps settings now db).1.counters
        ≡ spent ip s start db.counters
  unfolding sweep_old_windows sweep_cutoff
  sweep_keeps s db =
      let span =
        2
        * max settings.rate_limit_ip_window_seconds settings.rate_limit_endpoint_window_seconds
        * second in
      elim (Bool-cases sweeps) [
        | inr keep ↦ rw keep refl
        | inl due ↦ elim (Bool-cases (ltb (now + before_epoch) span)) [
          | inl early ↦ rw (due, early) refl
          | inr fits ↦
              let (low, high, _) =
                window_start_bounds now settings.rate_limit_ip_window_seconds window in
              let late : ltb start (now - span) ≡ false = ground (arith, high, low) in
              rw (due, fits)
                (delete_expired_rate_limit_counters-spent (now - span) ip s start db ∙ rw late refl)
        ]
      ]

  -- What follows a charge keeps the count, whether the charge raises or not.
  after-keeps {ℓ κ} :
      {A : Type ℓ} {B : Type κ} (s : String) (n : ℕ) (c : Result A × Db) (g : Db → Result B × Db)
      → spent ip s start c.1.counters ≡ n
      → ((d : Db) → spent ip s start (g d).1.counters ≡ spent ip s start d.counters)
      → spent ip s start (and_then c g).1.counters ≡ n
  after-keeps s n (ok a, db) g h k = k db ∙ h
  after-keeps s n (err e, db) g h k = h

  accept-spent :
      (s : String) (form : Endpoint) (db : Db)
      → spent ip s start
          (accept lib settings request sweeps seen delivery_id submission_id now received_at form
            db).1.counters
        ≡ spent ip s start db.counters
  unfolding accept charge_endpoint consume consume_rate_limit read_submission
  accept-spent s form db =
      let at = window_start now settings.rate_limit_endpoint_window_seconds in
      let spend = (consume_rate_limit-spent endpoint form.id at db ip s start).1 in
      rw enabled (
        after-keeps s (spent ip s start db.counters) _ _
          (after-keeps s (spent ip s start db.counters)
            (consume endpoint form.id (endpoint_rate_limit settings) now db)
            (sweep_old_windows sweeps settings now) spend (sweep_keeps s))
          (λ d. ap (spent ip s start) (
            finished-counters lib seen delivery_id form d
              (read_submission settings request form submission_id received_at))))

  routed-spent :
      (s : String) (db : Db) (found : Result Endpoint)
      → spent ip s start
          (routed lib settings request sweeps seen delivery_id submission_id now received_at db
            found).1.counters
        ≡ spent ip s start db.counters
  routed-spent s db (ok form) = accept-spent s form db
  routed-spent s db (err e) = refl

  charge_address-enabled :
      (db : Db)
      → charge_address lib settings request now db
        ≡ consume ip (address_subject lib request settings) (ip_rate_limit settings) now db
  unfolding charge_address
  charge_address-enabled db = rw enabled refl

  consumed-keeps :
      (s : String) (db : Db) (g : Db → Result SubmissionAccepted × Db)
      → ((d : Db) → spent ip s start (g d).1.counters ≡ spent ip s start d.counters)
      → spent ip s start (and_then (consume ip s (ip_rate_limit settings) now db) g).1.counters
        ≡ spent ip s start db.counters + 1
  unfolding consume
  consumed-keeps s db g keep =
      let (_, spend) = consume_rate_limit-spent ip s start db ip s start in
      charge-keeps (λ d. spent ip s start d.counters) (spent ip s start db.counters + 1) _ _
        (consume_rate_limit ip s start db).1 g (spend ∙ ground (arith, eq_refl s)) keep

  -- With rate limiting on, every submission attempt that reaches the handler spends exactly one
  -- unit of its source address in the current window, whatever becomes of it: refused by a limiter,
  -- malformed, addressed to no endpoint, unacceptable, or stored.
  pub submit-spent :
      (endpoint_id : String) (db : Db)
      → let subject = address_subject lib request settings in
        spent ip subject start
          (submit lib settings request sweeps seen delivery_id submission_id now received_at
            endpoint_id db).1.counters
        ≡ spent ip subject start db.counters + 1
  unfolding submit
  submit-spent endpoint_id db =
      let subject = address_subject lib request settings in
      let g : Db → Result SubmissionAccepted × Db = λ d.
        routed lib settings request sweeps seen delivery_id submission_id now received_at d
          (resolve_endpoint endpoint_id d) in
      ap (λ c. spent ip subject start (and_then c g).1.counters) (charge_address-enabled db)
      ∙ consumed-keeps subject db g (λ d. routed-spent subject d (resolve_endpoint endpoint_id d))
