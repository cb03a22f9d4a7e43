-- ===== src/Service/Requests.antt =====
-- What each request, command and worker does to the database is a history of transactions.
use forms.Prelude.{
  min, none, some, ℕ, String, subst, Bool, true, false, Option, ltb, ◌==◌, Bool-cases, Option-cases,
  inl, inr,
}
use forms.Exceptions.{Result, ok, err, committed, ◌>>=◌, Result-cases}
use forms.Webhooks.{RetryPolicy, WebhookTarget}
use forms.Models.{Instant, Limiter, ip, endpoint, Endpoint, Db}
use forms.RateLimit.{RateLimit, window_start}
use forms.Config.{Settings, ip_rate_limit, endpoint_rate_limit}
use forms.Ingestion.{Submission}
use forms.Retention.{RetentionPolicy, cutoff}
use forms.Storage.Submissions.{StoredSubmission, store_submission}
use forms.Management.{contains_nul, replay_delivery}
use forms.Security.Generation.{GeneratedKey}
use forms.CommandLine.{
  Arguments, create_key_command, list_keys_command, cleanup_command, revoke_key_command, dispatch,
  cleanup_submissions, cleanup_policy, sweep_before, swept, at_once, create_key, Report,
  max_batches, Eligible,
}
use forms.Submit.{
  Library, Request, address_subject, consume, charge_address, sweep_old_windows, sweep_cutoff,
  swept_before, charge_endpoint, read_submission, store_read, answered, with_state, and_then,
  accept, routed, resolve_endpoint, submit, webhook_of, fingerprint_of,
}
use forms.System.{store, replay, sweep, count, forget, configure, Reach, Reach-trans, here, next}
use forms.Service.{
  Event, submission, replaying, creation, change, authentication, command, work, Served, begun,
  also,
}
use forms.Service.Administration.{
  Administered, create_route-Administered, update_route-Administered, create_key-Administered,
  revoke_key-Administered, require_management_key-Administered,
}

module _ (policy : RetryPolicy) where
  Administered-Reach : (db db' : Db) → Administered db db' → Reach policy db db'
  Administered-Reach db db' same =
      subst (Reach policy db) same (next here (configure db db'.endpoints db'.keys))

  consume-Reach :
      (limiter : Limiter) (subject : String) (limit : RateLimit) (now : Instant) (db : Db)
      → Reach policy db (consume limiter subject limit now db).1
  unfolding consume
  consume-Reach limiter subject limit now db =
      next here (count db limiter subject (window_start now limit.window_seconds))

  charge_address-Reach :
      (lib : Library) (settings : Settings) (request : Request) (now : Instant) (db : Db)
      → Reach policy db (charge_address lib settings request now db).1
  unfolding charge_address
  charge_address-Reach lib settings request now db = elim (Bool-cases settings.rate_limit_enabled) [
    | inl on ↦
        rw on
          (consume-Reach ip (address_subject lib request settings) (ip_rate_limit settings) now db)
    | inr off ↦ rw off here
  ]

  sweep_old_windows-Reach :
      (sweeps : Bool) (settings : Settings) (now : Instant) (db : Db)
      → Reach policy db (sweep_old_windows sweeps settings now db).1
  unfolding sweep_old_windows
  sweep_old_windows-Reach false settings now db = here
  sweep_old_windows-Reach true settings now db = go (sweep_cutoff settings now)
    where
      go : (before : Result Instant) → Reach policy db (swept_before before db).1
      go (ok before) = next here (forget db before)
      go (err e) = here

  and_then-Reach {ℓ κ} :
      {A : Type ℓ} {B : Type κ} (db : Db) (c : Result A × Db) (f : Db → Result B × Db)
      → Reach policy db c.1
      → ((db' : Db) → Reach policy db' (f db').1)
      → Reach policy db (and_then c f).1
  and_then-Reach db (ok a, db1) f r k = Reach-trans policy db db1 (f db1).1 r (k db1)
  and_then-Reach db (err e, db1) f r k = r

  charge_endpoint-Reach :
      (sweeps : Bool) (settings : Settings) (endpoint_id : String) (now : Instant) (db : Db)
      → Reach policy db (charge_endpoint sweeps settings endpoint_id now db).1
  unfolding charge_endpoint
  charge_endpoint-Reach sweeps settings endpoint_id now db =
      elim (Bool-cases settings.rate_limit_enabled) [
        | inl on ↦ rw on (
            and_then-Reach db (consume endpoint endpoint_id (endpoint_rate_limit settings) now db) _
              (consume-Reach endpoint endpoint_id (endpoint_rate_limit settings) now db)
              (sweep_old_windows-Reach sweeps settings now))
        | inr off ↦ rw off here
      ]

  answered-Reach :
      (db : Db) (r : Result (StoredSubmission × Db))
      → Reach policy db (committed db r)
      → Reach policy db (with_state db (answered r)).1
  answered-Reach db (ok stored) h = h
  answered-Reach db (err e) h = h

  stores-Reach :
      (lib : Library) (seen : Db) (delivery_id : String) (form : Endpoint)
      (r : Result (Option String × Submission)) (db : Db)
      → Reach policy db (with_state db (r >>= λ x. store_read lib seen delivery_id form x db)).1
  unfolding store_read
  stores-Reach lib seen delivery_id form (err e) db = here
  stores-Reach lib seen delivery_id form (ok (key, s)) db = go (fingerprint_of lib key s.fields)
    where
      webhook : Option WebhookTarget
      webhook = webhook_of form.webhook_url form.webhook_secret

      go :
          (print : Result (Option String))
          → Reach policy db
              (with_state db (do
                fingerprint ← print
                answered (
                    store_submission delivery_id seen s s.received_at key fingerprint webhook
                      db))).1
      go (err e) = here
      go (ok fingerprint) =
          answered-Reach db
            (store_submission delivery_id seen s s.received_at key fingerprint webhook db)
            (next here (store db delivery_id seen s s.received_at key fingerprint webhook))

  module _ (lib : Library) (settings : Settings) (request : Request) (sweeps : Bool) (seen : Db)
      (delivery_id submission_id : String) (now received_at : Instant) where
    routed-Reach :
        (found : Result Endpoint) (db : Db)
        → Reach policy db
            (routed lib settings request sweeps seen delivery_id submission_id now received_at db
              found).1
    unfolding accept
    routed-Reach (err e) db = here
    routed-Reach (ok form) db =
        and_then-Reach db (charge_endpoint sweeps settings form.id now db) _
          (charge_endpoint-Reach sweeps settings form.id now db)
          (λ db'.
            stores-Reach lib seen delivery_id form
              (read_submission settings request form submission_id received_at) db')

    -- A public submission is a count of its address, a count of its endpoint, a deletion of old
    -- counters and a store, as far as it comes.
    pub submit-Reach :
        (endpoint_id : String) (db : Db)
        → Reach policy db
            (submit lib settings request sweeps seen delivery_id submission_id now received_at
              endpoint_id db).1
    unfolding submit
    submit-Reach endpoint_id db =
        and_then-Reach db (charge_address lib settings request now db) _
          (charge_address-Reach lib settings request now db)
          (λ db'. routed-Reach (resolve_endpoint endpoint_id db') db')

  replay_delivery-Reach :
      (delivery_id : String) (now : Instant) (db : Db)
      → Reach policy db (replay_delivery delivery_id now db).1
  unfolding replay_delivery
  replay_delivery-Reach delivery_id now db = elim (Bool-cases (contains_nul delivery_id)) [
    | inl nul ↦ rw nul here
    | inr clean ↦ rw clean (next here (replay db delivery_id now))
  ]

  swept-Reach :
      (eligible : Eligible) (batch_size : ℕ) (outage : Option ℕ) (db : Db)
      → Reach policy db (swept eligible batch_size outage db).1
  unfolding swept
  swept-Reach eligible n none db = next here (sweep db eligible.before n max_batches)
  swept-Reach eligible n (some batches) db =
      next here (sweep db eligible.before n (min batches max_batches))

  sweep_before-Reach :
      (eligible : Eligible) (is_dry : Bool) (batch_size : ℕ) (outage : Option ℕ) (db : Db)
      → Reach policy db (sweep_before eligible is_dry batch_size outage db db).1
  unfolding sweep_before
  sweep_before-Reach eligible true n outage db = here
  sweep_before-Reach eligible false n outage db = elim (Bool-cases (eligible.count == 0)) [
    | inl nothing ↦ rw nothing here
    | inr some_due ↦ rw some_due (swept-Reach eligible n outage db)
  ]

  cleanup_submissions-Reach :
      (settings : RetentionPolicy) (age : Option ℕ) (is_dry : Bool) (batch_size : ℕ)
      (outage : Option ℕ) (now : Instant) (db : Db)
      → Reach policy db (cleanup_submissions settings age is_dry batch_size outage now db db).1
  unfolding cleanup_submissions
  cleanup_submissions-Reach settings age is_dry n outage now db =
      elim (Option-cases (cleanup_policy settings age)) [
        | inl disabled ↦ rw disabled here
        | inr (chosen, is) ↦ elim (Bool-cases (ltb n 1)) [
          | inl small ↦ rw (is, small) here
          | inr fine ↦ elim (Result-cases (cutoff chosen now)) [
            | inr (e, fails) ↦ rw (is, fine, fails) here
            | inl (before, works) ↦ rw (is, fine, works) (sweep_before-Reach _ is_dry n outage db)
          ]
        ]
      ]

  created-Reach :
      (db : Db) (r : Result ((ℕ × Report) × Db))
      → Administered db (committed db r)
      → Reach policy db (at_once db r).1
  created-Reach db (ok (answer, db')) same = Administered-Reach db db' same
  created-Reach db (err e) same = here

  dispatch-Reach :
      (arguments : Arguments) (retention : RetentionPolicy) (generated : GeneratedKey)
      (outage : Option ℕ) (now : Instant) (db : Db)
      → Reach policy db (dispatch arguments retention generated outage now db db).1
  unfolding dispatch
  dispatch-Reach (create_key_command name) retention generated outage now db =
      created-Reach db (create_key generated name now db)
        (create_key-Administered now db generated name)
  dispatch-Reach list_keys_command retention generated outage now db = here
  dispatch-Reach (cleanup_command age is_dry n) retention generated outage now db =
      cleanup_submissions-Reach retention age is_dry n outage now db
  dispatch-Reach (revoke_key_command key_id) retention generated outage now db =
      Administered-Reach db _ (revoke_key-Administered now db key_id)

  Event-Reach : {db db' : Db} → Event policy db db' → Reach policy db db'
  Event-Reach (submission db lib settings request sweeps seen d s now at e) =
      submit-Reach lib settings request sweeps seen d s now at e db
  Event-Reach (replaying db id now) = replay_delivery-Reach id now db
  Event-Reach (creation db validate new_secret payload now) =
      Administered-Reach db _ (create_route-Administered now db validate new_secret payload)
  Event-Reach (change db validate new_secret id payload) =
      Administered-Reach db _ (update_route-Administered 0 db validate new_secret id payload)
  Event-Reach (authentication db digest credentials writes now) =
      Administered-Reach db _ (require_management_key-Administered now db digest credentials writes)
  Event-Reach (command db arguments retention generated outage now) =
      dispatch-Reach arguments retention generated outage now db
  Event-Reach (work step) = next here step

  -- Whatever the service does is a history of transactions.
  pub Served-Reach : {start db : Db} → Served policy start db → Reach policy start db
  Served-Reach begun = here
  Served-Reach (also served event) =
      Reach-trans policy _ _ _ (Served-Reach served) (Event-Reach event)
