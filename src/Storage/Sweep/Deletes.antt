-- ===== src/Storage/Sweep/Deletes.antt =====
-- The DELETE of the retention sweep of hymical_forms/storage.py, read by lookups.
use forms.Prelude.{
  ℕ, zero, suc, String, ◌≡◌, refl, true, false, not, Option, none, some, List, [], ◌∷◌, map, arith,
  eq_iff, eq_refl, elem, if◌then◌else◌, filter, take,
}
use forms.Models.{Instant, WebhookDelivery, SubmissionRow, Db}
use forms.Retention.{is_protected}
use forms.Table.{find}
use forms.Storage.Deliveries.ClaimLoop.{lookup}
use forms.Storage.Sweep.{still_needed, expired_condition, set_null, expired_ids}

abbrev pub unlink : List String → WebhookDelivery → WebhookDelivery
unlink ids d = record d { submission_id = set_null ids d.submission_id }

abbrev pub mapped {ℓ κ} : {A : Type ℓ} {B : Type κ} → (A → B) → Option A → Option B
mapped f none = none
mapped f (some a) = some (f a)

pub find-undeleted :
    (ids : List String) (s : String) (t : List SubmissionRow)
    → find (λ x. x.id) s (filter (λ r. not (elem r.id ids)) t)
      ≡ (if elem s ids then none else find (λ x. x.id) s t)
unfolding find
find-undeleted ids s [] = ground arith
find-undeleted ids s (r ∷ t) = ground (arith, eq_iff r.id s, find-undeleted ids s t)

pub lookup-unlinked :
    (ids : List String) (j : String) (t : List WebhookDelivery)
    → lookup j (map (unlink ids) t) ≡ mapped (unlink ids) (lookup j t)
unfolding find
lookup-unlinked ids j [] = refl
lookup-unlinked ids j (r ∷ t) = ground (arith, lookup-unlinked ids j t)

-- A stored delivery that is protected makes its submission needed.
pub still_needed-lookup :
    (j s : String) (t : List WebhookDelivery) (d : WebhookDelivery)
    → lookup j t ≡ some d
    → d.submission_id ≡ some s
    → is_protected d.state ≡ true
    → still_needed t s ≡ true
unfolding find still_needed
still_needed-lookup j s [] d found carries protected = cc
still_needed-lookup j s (r ∷ t) d found carries protected =
    ground (arith, eq_iff r.id j, eq_refl s, still_needed-lookup j s t d)

pub elem-take :
    (s : String) (n : ℕ) (ids : List String) → elem s (take n ids) ≡ true → elem s ids ≡ true
elem-take s zero ids h = cc
elem-take s (suc n) [] h = h
elem-take s (suc n) (x ∷ ids) h = ground (arith, elem-take s n ids)

elem-expired :
    (before : Instant) (ds : List WebhookDelivery) (s : String) (t : List SubmissionRow)
    → elem s (map (λ r. r.id) (filter (expired_condition before ds) t)) ≡ true
    → still_needed ds s ≡ false
unfolding expired_condition
elem-expired before ds s [] h = cc
elem-expired before ds s (r ∷ t) h = ground (arith, eq_iff r.id s, elem-expired before ds s t)

-- What a batch deletes is needed by no delivery.
pub expired_ids-unneeded :
    (before : Instant) (batch_size : ℕ) (db : Db) (s : String)
    → elem s (expired_ids before batch_size db) ≡ true
    → still_needed db.deliveries s ≡ false
unfolding expired_ids
expired_ids-unneeded before n db s h = elem-expired before db.deliveries s db.submissions (
    elem-take s n (map (λ r. r.id) (filter (expired_condition before db.deliveries) db.submissions))
      h)
