-- ===== src/System/Histories.antt =====
-- What holds after any history of transactions.
use forms.Prelude.{List, ◌≡◌, refl, arith}
use forms.Webhooks.{RetryPolicy}
use forms.Models.{Endpoint, Db}
use forms.Table.{find}
use forms.Storage.RateLimits.{consume_rate_limit, delete_expired_rate_limit_counters}
use forms.Consistency.{IsConsistent, numbers}
use forms.Consistency.Claiming.{claim_due_deliveries-IsConsistent}
use forms.Consistency.Completing.{complete_attempt-IsConsistent}
use forms.Consistency.Replaying.{requeue_failed_delivery-IsConsistent}
use forms.Consistency.Storing.{store_submission-IsConsistent}
use forms.Consistency.Sweeping.{delete_expired_submissions-IsConsistent}
use forms.System.{
  Step, store, claim, complete, replay, sweep, count, forget, configure, Reach, here, next, new_db,
}

pub count-IsConsistent :
    (db : Db) (t : Db)
    → t.deliveries ≡ db.deliveries
    → t.attempts ≡ db.attempts
    → t.submissions ≡ db.submissions
    → IsConsistent db
    → IsConsistent t
count-IsConsistent db t d a s h = record {
  sound = λ j r e. h.sound j r (rw d at e);
  audit = λ j r e. rw a (h.audit j r (rw d at e));
  unborn = λ j e. rw a (h.unborn j (rw d at e));
  linked = λ j r x e link. rw s (h.linked j r x (rw d at e) link);
  unique = λ e k. rw s (h.unique e k);
}

pub Step-IsConsistent :
    {policy : RetryPolicy} {db db' : Db} → Step policy db db' → IsConsistent db → IsConsistent db'
unfolding consume_rate_limit delete_expired_rate_limit_counters
Step-IsConsistent (store db d seen s now k f w) h =
    store_submission-IsConsistent d seen s now k f w db h
Step-IsConsistent (claim db mint now lease limit seen pos) h =
    claim_due_deliveries-IsConsistent mint now lease limit seen db pos h
Step-IsConsistent {policy} (complete db a d result now token) h =
    complete_attempt-IsConsistent a d result now policy token db h
Step-IsConsistent (replay db k now) h = requeue_failed_delivery-IsConsistent k now db h
Step-IsConsistent (sweep db before n rounds) h =
    delete_expired_submissions-IsConsistent before n rounds db h
Step-IsConsistent (count db l s w) h =
    count-IsConsistent db (consume_rate_limit l s w db).1 refl refl refl h
Step-IsConsistent (forget db before) h =
    count-IsConsistent db (delete_expired_rate_limit_counters before db).1 refl refl refl h
Step-IsConsistent (configure db endpoints keys) h =
    count-IsConsistent db (record db { endpoints = endpoints; keys = keys }) refl refl refl h

new_db-IsConsistent : (endpoints : List Endpoint) → IsConsistent (new_db endpoints)
unfolding find numbers
new_db-IsConsistent endpoints = record {
  sound = λ j r e. cc;
  audit = λ j r e. cc;
  unborn = λ j e. refl;
  linked = λ j r s e. cc;
  unique = λ e k. omega arith;
}

-- From a database with endpoints only, after any history of stores, claims, completions, replays,
-- sweeps and changes of endpoints and keys by any number of processes, the store is consistent: each delivery is finished
-- exactly when it says when, is claimed exactly while it holds a token and a lease, has its
-- submission as long as it can be attempted or replayed, and has its attempts numbered from 1 to
-- its total with no gap and no repetition; every submission that a delivery names is stored; an
-- idempotency key of an endpoint names at most one submission.
pub Reach-IsConsistent :
    (policy : RetryPolicy) (endpoints : List Endpoint) (db : Db)
    → Reach policy (new_db endpoints) db
    → IsConsistent db
Reach-IsConsistent policy endpoints db here = new_db-IsConsistent endpoints
Reach-IsConsistent policy endpoints db (next r st) =
    Step-IsConsistent st (Reach-IsConsistent policy endpoints _ r)
