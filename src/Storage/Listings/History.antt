-- ===== src/Storage/Listings/History.antt =====
-- The history of a delivery: `list_delivery_attempts` of hymical_forms/storage.py.
use forms.Prelude.{
  ℕ, zero, suc, ◌≤◌, ◌<◌, String, ◌≡◌, refl, ap, ◌∙◌, true, List, [], ◌∷◌, ◌++◌, map, some, arith,
  str_eq, filter, All, All-map, Bool, Bool-cases, inl, inr,
}
use forms.Models.{WebhookDelivery, DeliveryAttempt, Db}
use forms.Storage.Deliveries.ClaimLoop.{lookup}
use forms.Storage.Listings.{insert_in_order, in_order, list_delivery_attempts}
use forms.Consistency.{IsConsistent, numbers, count_down}

-- 1, 2, ..., n
abbrev pub count_up : ℕ → List ℕ
count_up zero = []
count_up (suc n) = count_up n ++ suc n ∷ []

abbrev has_number : DeliveryAttempt → ℕ
has_number a = a.attempt_number

insert_in_order-last :
    (before : String → String → Bool) (x : DeliveryAttempt) (ys : List DeliveryAttempt)
    → All (λ y. y.attempt_number < x.attempt_number) ys
    → insert_in_order before x ys ≡ ys ++ x ∷ []
unfolding insert_in_order
insert_in_order-last before x [] h = refl
insert_in_order-last before x (y ∷ ys) h = ground (arith, h.0, insert_in_order-last before x ys h.1)

All-snoc :
    (P : DeliveryAttempt → Type 0) (ys : List DeliveryAttempt) (x : DeliveryAttempt)
    → All P ys
    → P x
    → All P (ys ++ x ∷ [])
All-snoc P [] x h px = (px, tt)
All-snoc P (y ∷ ys) x h px = (h.0, All-snoc P ys x h.1 px)

map-snoc :
    (ys : List DeliveryAttempt) (x : DeliveryAttempt)
    → map has_number (ys ++ x ∷ []) ≡ map has_number ys ++ has_number x ∷ []
map-snoc [] x = refl
map-snoc (y ∷ ys) x = ap (λ t. has_number y ∷ t) (map-snoc ys x)

abbrev of_delivery : String → DeliveryAttempt → Bool
of_delivery j a = str_eq a.delivery_id j

record IsCounted (before : String → String → Bool) (j : String) (t : List DeliveryAttempt) (n : ℕ)
    : Type 0 where
  counted : map has_number (in_order before (filter (of_delivery j) t)) ≡ count_up n
  bounded : All (λ y. y.attempt_number ≤ n) (in_order before (filter (of_delivery j) t))

-- A further attempt of the delivery, numbered next, comes last.
IsCounted-next :
    (before : String → String → Bool) (j : String) (a : DeliveryAttempt) (t : List DeliveryAttempt)
    (m : ℕ)
    → str_eq a.delivery_id j ≡ true
    → a.attempt_number ≡ suc m
    → IsCounted before j t m
    → IsCounted before j (a ∷ t) (suc m)
unfolding in_order
IsCounted-next before j a t m mine number ih =
    let sorted = in_order before (filter (of_delivery j) t) in
    let last =
      insert_in_order-last before a sorted
        (All-map _ _ sorted (λ y le. omega (arith, le, number)) ih.bounded) in
    record {
      counted = rw (mine, last) (map-snoc sorted a ∙ rw (ih.counted, number) refl);
      bounded =
          rw (mine, last)
            (All-snoc (λ y. y.attempt_number ≤ suc m) sorted a
              (All-map _ _ sorted (λ y le. omega (arith, le)) ih.bounded) (omega (arith, number)));
    }

in_order-IsCounted :
    (before : String → String → Bool) (j : String) (t : List DeliveryAttempt) (n : ℕ)
    → numbers j t ≡ count_down n
    → IsCounted before j t n
unfolding numbers in_order
in_order-IsCounted before j [] zero h = record { counted = refl; bounded = tt }
in_order-IsCounted before j [] (suc n) h = cc
in_order-IsCounted before j (a ∷ t) zero h = elim (Bool-cases (str_eq a.delivery_id j)) [
  | inl mine ↦ cc (rw mine at h)
  | inr other ↦
      let ih = in_order-IsCounted before j t zero (rw other at h) in
      record { counted = rw other ih.counted; bounded = rw other ih.bounded }
]
in_order-IsCounted before j (a ∷ t) (suc m) h = elim (Bool-cases (str_eq a.delivery_id j)) [
  | inl mine ↦
      let both = rw mine at h in
      IsCounted-next before j a t m mine (cc (both)) (in_order-IsCounted before j t m (cc (both)))
  | inr other ↦
      let ih = in_order-IsCounted before j t (suc m) (rw other at h) in
      record { counted = rw other ih.counted; bounded = rw other ih.bounded }
]

-- Of a consistent store, the history of a delivery reads 1, 2, and so on to its lifetime total.
pub list_delivery_attempts-numbered :
    (before : String → String → Bool) (j : String) (db : Db) (row : WebhookDelivery)
    → IsConsistent db
    → lookup j db.deliveries ≡ some row
    → map (λ a. a.attempt_number) (list_delivery_attempts before j db) ≡ count_up row.attempts
unfolding list_delivery_attempts
list_delivery_attempts-numbered before j db row c found =
    (in_order-IsCounted before j db.attempts row.attempts (c.audit j row found)).counted
