-- ===== src/Service/Safety.antt =====
-- What holds of the whole service, and what it owes to a client.
use forms.Prelude.{◌<◌, List}
use forms.Webhooks.{RetryPolicy}
use forms.Models.{Endpoint, Db}
use forms.Consistency.{IsConsistent}
use forms.System.{new_db}
use forms.System.Histories.{Reach-IsConsistent}
use forms.System.Allowance.{AllWithin, Reach-AllWithin}
use forms.Service.{Served}
use forms.Service.Requests.{Served-Reach}

-- From a database with endpoints only, with an allowance of at least one attempt that all workers
-- share, after any public submissions, replays, creations and changes of endpoints, management
-- requests that record the use of a key, commands and transactions of workers, in any order and
-- with any outcome: the store is consistent, and no delivery has used more attempts than its
-- allowance since it was queued or last replayed, while one that is pending or claimed has at
-- least one left.
pub Served-IsSafe :
    (policy : RetryPolicy) (endpoints : List Endpoint) (db : Db)
    → 0 < policy.max_attempts
    → Served policy (new_db endpoints) db
    → IsConsistent db × AllWithin policy db
Served-IsSafe policy endpoints db positive served =
    let history = Served-Reach policy served in
    (
      Reach-IsConsistent policy endpoints db history,
      Reach-AllWithin policy positive endpoints db history,
    )
