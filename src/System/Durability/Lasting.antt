-- ===== src/System/Durability/Lasting.antt =====
-- A delivery and its submission, after any history of transactions.
use forms.Prelude.{String, refl}
use forms.Webhooks.{RetryPolicy}
use forms.Models.{WebhookDelivery, SubmissionRow, Db}
use forms.Storage.RateLimits.{consume_rate_limit, delete_expired_rate_limit_counters}
use forms.Consistency.{IsConsistent}
use forms.System.{
  Step, store, claim, complete, replay, sweep, count, forget, configure, Reach, here, next,
}
use forms.System.Histories.{Step-IsConsistent}
use forms.System.Durability.{IsOwed, same_row}
use forms.System.Durability.Claiming.{claim_due_deliveries-IsOwed, requeue_failed_delivery-IsOwed}
use forms.System.Durability.Completing.{complete_attempt-IsOwed}
use forms.System.Durability.Storing.{store_submission-IsOwed}
use forms.System.Durability.Sweeping.{delete_expired_submissions-IsOwed}

module _ (j : String) (a : WebhookDelivery) (x : SubmissionRow) {policy : RetryPolicy} where
  Step-IsOwed :
      {db db' : Db} → Step policy db db' → IsConsistent db → IsOwed j a x db → IsOwed j a x db'
  unfolding consume_rate_limit delete_expired_rate_limit_counters
  Step-IsOwed (store db d seen s now k f w) h o =
      store_submission-IsOwed j a x db o d seen s now k f w
  Step-IsOwed (claim db mint now lease limit seen pos) h o =
      claim_due_deliveries-IsOwed j a x db o mint now lease limit seen pos
  Step-IsOwed (complete db i d result now token) h o =
      complete_attempt-IsOwed j a x i d result now policy token db h o
  Step-IsOwed (replay db k now) h o = requeue_failed_delivery-IsOwed j a x db o k now
  Step-IsOwed (sweep db before n rounds) h o =
      delete_expired_submissions-IsOwed j a x before n rounds db o
  Step-IsOwed (count db l s w) h o = same_row j a x o refl (λ k. k)
  Step-IsOwed (forget db before) h o = same_row j a x o refl (λ k. k)
  Step-IsOwed (configure db endpoints keys) h o = same_row j a x o refl (λ k. k)

  -- What is owed in a consistent database stays owed, whatever transactions follow.
  pub Reach-IsOwed :
      {start db : Db}
      → Reach policy start db
      → IsConsistent start
      → IsOwed j a x start
      → IsConsistent db × IsOwed j a x db
  Reach-IsOwed here h o = (h, o)
  Reach-IsOwed (next r st) h o =
      let (h', o') = Reach-IsOwed r h o in (Step-IsConsistent st h', Step-IsOwed st h' o')
