-- ===== src/Consistency.antt =====
-- What holds of the stored deliveries, attempts and submissions between any two transactions of
-- hymical_forms/storage.py.
pub mod Claiming
pub mod Completing
pub mod Replaying
pub mod Storing
pub mod Sweeping
use forms.Prelude.{
  ℕ, zero, suc, ◌≤◌, String, ◌≡◌, Bool, true, false, Option, none, some, List, [], ◌∷◌, str_eq,
  is_some, if◌then◌else◌, filter, length,
}
use forms.Webhooks.{is_terminal, is_processing}
use forms.Retention.{is_protected}
use forms.Models.{WebhookDelivery, DeliveryAttempt, Db}
use forms.Table.{find}
use forms.Storage.Submissions.{is_keyed}
use forms.Storage.Deliveries.ClaimLoop.{lookup}

-- One delivery: it is finished exactly when it says when; it holds a token and a lease exactly
-- while it is claimed; its cycle is part of its history; it can still be attempted or replayed
-- only while it has its submission.
pub record IsSound (r : WebhookDelivery) : Type 0 where
  pub completion : is_terminal r.state ≡ is_some r.completed_at
  pub token : is_processing r.state ≡ is_some r.claim_token
  pub lease : is_processing r.state ≡ is_some r.claim_expires_at
  pub budget : r.cycle_attempts ≤ r.attempts
  pub carries : is_protected r.state ≡ true → is_some r.submission_id ≡ true

-- The attempt numbers recorded for a delivery, the latest first.
unfoldable pub numbers : String → List DeliveryAttempt → List ℕ
numbers j [] = []
numbers j (a ∷ rest) =
    let later = numbers j rest in if str_eq a.delivery_id j then a.attempt_number ∷ later else later

-- n, n - 1, ..., 1
abbrev pub count_down : ℕ → List ℕ
count_down zero = []
count_down (suc n) = suc n ∷ count_down n

-- Every delivery is sound, its attempts are numbered from 1 to its lifetime total with no gap and
-- no repetition, and the submission that it names is stored; a delivery that is not stored has no
-- attempts; at most one submission holds an idempotency key of an endpoint.
pub record IsConsistent (db : Db) : Type 0 where
  pub sound : (j : String) (r : WebhookDelivery) → lookup j db.deliveries ≡ some r → IsSound r
  pub audit :
      (j : String) (r : WebhookDelivery)
      → lookup j db.deliveries ≡ some r
      → numbers j db.attempts ≡ count_down r.attempts
  pub unborn : (j : String) → lookup j db.deliveries ≡ none → numbers j db.attempts ≡ []
  pub linked :
      (j : String) (r : WebhookDelivery) (s : String)
      → lookup j db.deliveries ≡ some r
      → r.submission_id ≡ some s
      → is_some (find (λ x. x.id) s db.submissions) ≡ true
  pub unique : (e k : String) → length (filter (is_keyed e k) db.submissions) ≤ 1
