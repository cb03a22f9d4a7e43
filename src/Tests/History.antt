-- ===== src/Tests/History.antt =====
-- A submission with a webhook is stored and its delivery claimed and failed once.
use forms.Prelude.{some, [], ◌∷◌, arith}
use forms.Exceptions.{committed}
use forms.Models.{Db}
use forms.Storage.Submissions.{store_submission}
use forms.Storage.Deliveries.{claim_due_deliveries, complete_attempt}
use forms.Consistency.{IsConsistent}
use forms.System.{store, claim, complete, Reach, here, next, new_db}
use forms.System.Histories.{Reach-IsConsistent}
use forms.Tests.Samples.{
  form, target, key, posted, waiting, held, policy, unavailable, mint, minute,
}

abbrev pub fresh : Db
fresh = new_db (form ∷ [])

abbrev pub one_stored : Db
one_stored =
    committed fresh
      (store_submission "whd_1" fresh posted 1000 (some key) (some "f1") (some target) fresh)

abbrev pub one_claimed : Db
one_claimed = (claim_due_deliveries mint 1000 minute 10 (waiting ∷ []) one_stored).1

abbrev pub one_failed : Db
one_failed =
    committed one_claimed
      (complete_attempt "att_1" held unavailable 2000 policy (some "clm_0") one_claimed)

pub history : Reach policy fresh one_failed
history =
    next
      (next (next here (store fresh "whd_1" fresh posted 1000 (some key) (some "f1") (some target)))
        (claim one_stored mint 1000 minute 10 (waiting ∷ []) (omega arith)))
      (complete one_claimed "att_1" held unavailable 2000 (some "clm_0"))

Reach-IsConsistent_example : IsConsistent one_failed
Reach-IsConsistent_example = Reach-IsConsistent policy (form ∷ []) one_failed history
