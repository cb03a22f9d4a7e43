-- ===== src/Submit/Retries.antt =====
-- A client that retries: two requests with one idempotency key and one body, through the whole
-- handler `submit` of hymical_forms/api/submissions.py.
use forms.Prelude.{
  is_some, ℕ, String, ◌≡◌, refl, sym, ap, subst, ◌∙◌, Bool, true, false, Option, none, some, List,
  any, ◌⊎◌, inl, inr,
}
use forms.Exceptions.{◌>>=◌, Exception, Result, ok, err, is_ok, rate_limit_exceeded}
use forms.Exceptions.Raises.{Raises, raises}
use forms.Models.{Instant, Db}
use forms.Config.{Settings}
use forms.Ingestion.{field_count}
use forms.Storage.Submissions.{
  store_submission, find_by_idempotency_key, carries, from_domain, to_domain,
}
use forms.Storage.Submissions.Outcomes.{store_submission-Stored}
use forms.Storage.Submissions.Idempotency.{store_submission-taken, opt_eq_refl}
use forms.Storage.Submissions.Retries.{IsFirst-of}
use forms.Submit.Charging.{
  SameRecords, SameRecords-trans, charge_address-SameRecords, charge_endpoint-SameRecords,
  charge_address-Raises, charge_endpoint-Raises,
}
use forms.Submit.Readings.{submission_of, resolve_endpoint-same, resolve_endpoint-id}
use forms.Submit.Acceptances.{IsAccepted, kept_as, submit-IsAccepted}
use forms.Submit.{
  Library, Request, SubmissionAccepted, charge_address, charge_endpoint, read_submission,
  store_read, fingerprint_of, sweep_cutoff, answered, acknowledge, with_state, and_then, accept,
  routed, submit, webhook_of, resolve_endpoint,
}

abbrev is_limited : Exception → Bool
is_limited (rate_limit_exceeded scope limit window wait) = true
is_limited _ = false

-- The answer to a retry of a request that was acknowledged: a budget is spent, or the same
-- acknowledgement, marked as a replay.
abbrev pub IsRetried : SubmissionAccepted → Result SubmissionAccepted → Type 0
IsRetried ack r =
    ((scope : String) × (limit : ℕ) × (window : ℕ) × (wait : ℕ) × (r
        ≡ err (rate_limit_exceeded scope limit window wait)))
    ⊎ (r ≡ ok (record ack { idempotent_replay = true }))

abbrev Outcome : SubmissionAccepted → Db → Result SubmissionAccepted × Db → Type 0
Outcome ack after r = IsRetried ack r.0 × SameRecords after r.1

limited-IsRetried :
    (ack : SubmissionAccepted) (e : Exception) → is_limited e ≡ true → IsRetried ack (err e)
limited-IsRetried ack (rate_limit_exceeded scope limit window wait) h =
    inl (scope, limit, window, wait, refl)
limited-IsRetried ack _ h = cc

charged-Outcome :
    (ack : SubmissionAccepted) (after : Db) (c : Result (Unit {0}) × Db)
    (g : Db → Result SubmissionAccepted × Db)
    → Raises is_limited c.0
    → SameRecords after c.1
    → ((db : Db) → SameRecords after db → Outcome ack after (g db))
    → Outcome ack after (and_then c g)
charged-Outcome ack after (ok u, db) g h same k = k db same
charged-Outcome ack after (err e, db) g (raises _ h) same k = (limited-IsRetried ack e h, same)

-- What a later database still has of what the request left: the endpoint as it was, the submission
-- of the key, and its delivery if it had one.
pub record StillKnows (endpoint_id key submission_id : String) (after since : Db) : Type 0 where
  pub endpoint : resolve_endpoint endpoint_id since ≡ resolve_endpoint endpoint_id after
  pub row :
      find_by_idempotency_key since endpoint_id key ≡ find_by_idempotency_key after endpoint_id key
  pub owed :
      any (carries submission_id) since.deliveries ≡ any (carries submission_id) after.deliveries

module _ (lib : Library) (settings : Settings) (request : Request) (seen : Db)
    (delivery_id submission_id : String) (received_at : Instant) (endpoint_id : String) (db : Db)
    (key : String) (ack : SubmissionAccepted) (after : Db)
    (keyed : request.idempotency_key ≡ some key)
    (unborn : any (carries submission_id) db.deliveries ≡ false)
    (new : ack.idempotent_replay ≡ false)
    (first : IsAccepted lib settings request seen delivery_id submission_id received_at endpoint_id
      db ack after)
    (since : Db) (knows : StillKnows endpoint_id key submission_id after since)
    (peer forwarded : Option (List ℕ)) (sweeps' : Bool) (seen' : Db)
    (delivery_id' submission_id' : String) (now' later : Instant)
    (within : is_ok (sweep_cutoff settings now') ≡ true)
    (saw : (find_by_idempotency_key seen' endpoint_id key ≡ none)
      ⊎ (find_by_idempotency_key seen' endpoint_id key
          ≡ find_by_idempotency_key since endpoint_id key)) where
  abbrev again : Request
  again = record request { peer = peer; forwarded_for = forwarded }

  store_again :
      (d : Db)
      → SameRecords since d
      → store_read lib seen' delivery_id' first.form
          (some key, submission_of submission_id' first.form.id later first.fields)
          d
        ≡ ok (record ack { idempotent_replay = true }, d)
  unfolding store_read acknowledge find_by_idempotency_key from_domain to_domain field_count
  store_again d same =
      let form = first.form in
      let old = submission_of submission_id form.id received_at first.fields in
      let fingerprint = first.fingerprint in
      let printed : fingerprint_of lib (some key) first.fields ≡ ok fingerprint =
        subst (λ k. fingerprint_of lib k first.fields ≡ ok fingerprint) keyed first.printed in
      let webhook = webhook_of form.webhook_url form.webhook_secret in
      let keeps =
        subst
          (λ k.
            kept_as lib settings request seen delivery_id form k fingerprint old first.before
            ≡ ok (first.stored, after))
          keyed first.keeps in
      let f =
        IsFirst-of delivery_id seen old received_at key fingerprint webhook first.before
          (ap (λ (x : Db). any (carries submission_id) x.deliveries) first.same ∙ unborn)
          first.stored after (ap (λ a. a.idempotent_replay) first.says ∙ new) _
          (store_submission-Stored old delivery_id received_at webhook first.before seen (some key)
            fingerprint)
          keeps in
      let row = from_domain old (some key) fingerprint in
      let here : form.id ≡ endpoint_id = resolve_endpoint-id endpoint_id first.before first.found in
      let still : find_by_idempotency_key since form.id key
          ≡ find_by_idempotency_key after form.id key =
        subst (λ e. find_by_idempotency_key since e key ≡ find_by_idempotency_key after e key)
          (sym here) knows.row in
      let there : find_by_idempotency_key d form.id key ≡ some row =
        ap (λ (x : Db). find_by_idempotency_key x form.id key) same ∙ still ∙ f.row in
      let saw' : (find_by_idempotency_key seen' form.id key ≡ none)
          ⊎ (find_by_idempotency_key seen' form.id key ≡ some row) =
        elim saw [
          | inl unseen ↦ inl (rw here unseen)
          | inr found ↦ inr (
              subst (λ e. find_by_idempotency_key seen' e key ≡ find_by_idempotency_key since e key)
                (sym here) found
              ∙ still
              ∙ f.row)
        ] in
      let new_one = submission_of submission_id' form.id later first.fields in
      let owes : any (carries submission_id) d.deliveries ≡ is_some webhook =
        ap (λ (x : Db). any (carries submission_id) x.deliveries) same ∙ knows.owed ∙ f.owes in
      let replay : store_submission delivery_id' seen' new_one later (some key) fingerprint webhook
            d
          ≡ ok
              (record { submission = old; replayed = true; delivery_queued = is_some webhook }, d) =
        store_submission-taken delivery_id' seen' new_one later key fingerprint webhook d row there
          saw'
        ∙ rw (opt_eq_refl fingerprint, owes) refl in
      ap
        (λ r. r >>= λ fp.
          answered (store_submission delivery_id' seen' new_one later (some key) fp webhook d))
        printed
      ∙ ap answered replay
      ∙ ap (λ a. ok (record a { idempotent_replay = true }, d))
          (ap acknowledge (sym f.answer) ∙ first.says)

  accept_again :
      (d : Db)
      → SameRecords since d
      → Outcome ack since (
          accept lib settings again sweeps' seen' delivery_id' submission_id' now' later first.form
            d)
  unfolding accept
  accept_again d same =
      let id = first.form.id in
      charged-Outcome ack since (charge_endpoint sweeps' settings id now' d) _
        (charge_endpoint-Raises is_limited (λ s l w r. refl) sweeps' settings id now' d within)
        (SameRecords-trans since d (charge_endpoint sweeps' settings id now' d).1 same
          (charge_endpoint-SameRecords sweeps' settings id now' d))
        (λ d' same'.
          let read = first.again peer forwarded submission_id' later in
          let stores : (read_submission settings again first.form submission_id' later >>= λ r.
          store_read lib seen' delivery_id' first.form r d')
              ≡ ok (record ack { idempotent_replay = true }, d') =
            ap (λ r. r >>= λ x. store_read lib seen' delivery_id' first.form x d')
              (read ∙ ap (λ k. ok (k, submission_of submission_id' id later first.fields)) keyed)
            ∙ store_again d' same' in
          subst (λ r. Outcome ack since (with_state d' r)) (sym stores) (inr refl, same'))

  submit_again : Outcome ack since (
      submit lib settings again sweeps' seen' delivery_id' submission_id' now' later endpoint_id
        since)
  unfolding submit
  submit_again =
      charged-Outcome ack since (charge_address lib settings again now' since) _
        (charge_address-Raises is_limited (λ s l w r. refl) lib settings again now' since)
        (charge_address-SameRecords lib settings again now' since)
        (λ d same.
          let found =
            resolve_endpoint-same endpoint_id since d (ap (λ x. x.endpoints) same)
            ∙ knows.endpoint
            ∙ resolve_endpoint-same endpoint_id first.before after first.endpoints
            ∙ first.found in
          subst
            (λ r.
              Outcome ack since (
                routed lib settings again sweeps' seen' delivery_id' submission_id' now' later d r))
            (sym found) (accept_again d same))

-- A request with an idempotency key was acknowledged as a new submission, of which no delivery
-- bore the new identifier before. The same request is sent again, from any address, at any later
-- time and with any new identifiers, whether its lookup sees the key or races the first commit,
-- to a database that may have changed but still has the endpoint as it was, the submission of the
-- key and its delivery. It is then either refused for a spent budget, or acknowledged in the same
-- words and marked as a replay; and in both cases no record but the rate limit counters is
-- changed. The cutoff of the counters' sweep is to lie after the start of the year 1.
pub submit_retry :
    (lib : Library) (settings : Settings) (request : Request) (sweeps : Bool) (seen : Db)
    (delivery_id submission_id : String) (now received_at : Instant) (endpoint_id : String)
    (db : Db) (key : String) (ack : SubmissionAccepted) (after since : Db)
    (peer forwarded : Option (List ℕ)) (sweeps' : Bool) (seen' : Db)
    (delivery_id' submission_id' : String) (now' later : Instant)
    → request.idempotency_key ≡ some key
    → any (carries submission_id) db.deliveries ≡ false
    → submit lib settings request sweeps seen delivery_id submission_id now received_at endpoint_id
        db
      ≡ (ok ack, after)
    → ack.idempotent_replay ≡ false
    → StillKnows endpoint_id key submission_id after since
    → is_ok (sweep_cutoff settings now') ≡ true
    → (find_by_idempotency_key seen' endpoint_id key ≡ none)
      ⊎ (find_by_idempotency_key seen' endpoint_id key
          ≡ find_by_idempotency_key since endpoint_id key)
    → let (answer, final) =
        submit lib settings
          (record request { peer = peer; forwarded_for = forwarded })
          sweeps'
          seen'
          delivery_id'
          submission_id'
          now'
          later
          endpoint_id
          since in
      IsRetried ack answer × (record final { counters = since.counters } ≡ since)
submit_retry lib settings request sweeps seen delivery_id submission_id now received_at endpoint_id
      db key ack after since peer forwarded sweeps' seen' delivery_id' submission_id' now' later
      keyed unborn done new knows within saw =
    submit_again lib settings request seen delivery_id submission_id received_at endpoint_id db key
      ack after keyed unborn new
      (submit-IsAccepted lib settings request sweeps seen delivery_id submission_id now received_at
        ack after endpoint_id db done)
      since knows peer forwarded sweeps' seen' delivery_id' submission_id' now' later within saw
