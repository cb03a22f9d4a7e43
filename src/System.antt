-- ===== src/System.antt =====
-- The transactions of hymical_forms/storage.py on submissions and deliveries as the steps of one
-- system: API processes that store, workers that claim and complete, operators that replay, sweep
-- and configure, in any number and in any order.
pub mod Histories
pub mod Allowance
pub mod Durability
use forms.Prelude.{ℕ, ◌<◌, ◌≤◌, String, Option, none, some, List, [], ◌∷◌, ◌≡◌}
use forms.Exceptions.{committed}
use forms.Webhooks.{DeliveryResult, RetryPolicy, WebhookTarget}
use forms.Ingestion.{Submission}
use forms.Models.{Instant, Endpoint, ManagementApiKey, WebhookDelivery, Limiter, Db}
use forms.Storage.Deliveries.{claim_due_deliveries, complete_attempt, requeue_failed_delivery}
use forms.Storage.Submissions.{store_submission}
use forms.Storage.Sweep.{delete_expired_submissions}
use forms.Storage.RateLimits.{consume_rate_limit, delete_expired_rate_limit_counters}

-- One committed transaction. What a process had read before is any value: the snapshot `seen` of
-- a lookup or of a scan, and the row and token that a worker holds. All workers share a policy.
-- Of what configures the system, all that matters here is that it writes endpoints and keys only.
pub data Step (policy : RetryPolicy) : Db → Db → Type 0 where
  store :
      (db : Db) (delivery_id : String) (seen : Db) (submission : Submission) (now : Instant)
      (key fingerprint : Option String) (webhook : Option WebhookTarget)
      → Step policy db (
          committed db
            (store_submission delivery_id seen submission now key fingerprint webhook db))
  claim :
      (db : Db) (mint : ℕ → String) (now lease limit : ℕ) (seen : List WebhookDelivery)
      → 0 < lease
      → Step policy db (claim_due_deliveries mint now lease limit seen db).1
  complete :
      (db : Db) (attempt_id : String) (delivery : WebhookDelivery) (result : DeliveryResult)
      (now : Instant) (token : Option String)
      → Step policy db
          (committed db (complete_attempt attempt_id delivery result now policy token db))
  replay :
      (db : Db) (k : String) (now : Instant) → Step policy db (requeue_failed_delivery k now db).1
  sweep :
      (db : Db) (before : Instant) (batch_size max_batches : ℕ)
      → Step policy db (delete_expired_submissions before batch_size max_batches db).1
  count :
      (db : Db) (limiter : Limiter) (subject : String) (start : Instant)
      → Step policy db (consume_rate_limit limiter subject start db).1
  forget :
      (db : Db) (before : Instant) → Step policy db (delete_expired_rate_limit_counters before db).1
  configure :
      (db : Db) (endpoints : List Endpoint) (keys : List ManagementApiKey)
      → Step policy db (record db { endpoints = endpoints; keys = keys })

pub data Reach (policy : RetryPolicy) (start : Db) : Db → Type 0 where
  here : Reach policy start start
  next : {db db' : Db} → Reach policy start db → Step policy db db' → Reach policy start db'

pub Reach-trans :
    (policy : RetryPolicy) (a b c : Db) → Reach policy a b → Reach policy b c → Reach policy a c
Reach-trans policy a b c first here = first
Reach-trans policy a b c first (next second step) =
    next (Reach-trans policy a b _ first second) step

-- A database with endpoints and nothing else.
abbrev pub new_db : List Endpoint → Db
new_db endpoints = record {
  endpoints = endpoints;
  submissions = [];
  deliveries = [];
  attempts = [];
  keys = [];
  counters = [];
}
