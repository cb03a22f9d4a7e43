-- ===== src/Pages/Order.antt =====
-- The order of a listing: rows with distinct keys have one newest-first order, and a condition
-- commutes with it.
use forms.Prelude.{
  ◌+◌, String, ◌≡◌, refl, ◌∙◌, Bool, true, false, List, [], ◌∷◌, ◌++◌, arith, str_eq, eq_iff,
  eq_refl, if◌then◌else◌, length, filter, All, All-map, Bool-cases, inl, inr,
}
use forms.Models.{Instant}
use forms.Pages.{follows, insert_newest, newest_first}

-- What the pages need of the order on texts: it is strict and total.
pub record IsOrder (before : String → String → Bool) : Type 0 where
  pub irreflexive : (a : String) → before a a ≡ false
  pub transitive : (a b c : String) → before a b ≡ true → before b c ≡ true → before a c ≡ true
  pub total : (a b : String) → before a b ≡ false → before b a ≡ false → a ≡ b

module _ {A : Type 0} (before : String → String → Bool) (key : A → String) (at : A → Instant) where
  -- The primary key of a table.
  abbrev pub Distinct : List A → Type 0
  Distinct [] = Unit
  Distinct (x ∷ xs) = All (λ y. str_eq (key y) (key x) ≡ false) xs × Distinct xs

  abbrev pub AllFollow : A → List A → Type 0
  AllFollow x ys = All (λ y. follows before key at y x ≡ true) ys

  abbrev pub Sorted : List A → Type 0
  Sorted [] = Unit
  Sorted (x ∷ xs) = AllFollow x xs × Sorted xs

module _ {A : Type 0} (before : String → String → Bool) (key : A → String) (at : A → Instant) where
  length-insert_newest :
      (x : A) (xs : List A) → length (insert_newest before key at x xs) ≡ length xs + 1
  unfolding insert_newest
  length-insert_newest x [] = omega arith
  length-insert_newest x (y ∷ ys) = ground (arith, length-insert_newest x ys)

  pub length-newest_first : (xs : List A) → length (newest_first before key at xs) ≡ length xs
  unfolding newest_first
  length-newest_first [] = refl
  length-newest_first (x ∷ xs) =
      omega (arith, length-insert_newest x (newest_first before key at xs), length-newest_first xs)

module _ {A : Type 0} (before : String → String → Bool) (key : A → String) (at : A → Instant)
    (order : IsOrder before) where
  pub follows_self : (a : A) → follows before key at a a ≡ false
  unfolding follows
  follows_self a = ground (arith, order.irreflexive (key a))

  pub follows_trans :
      (a b c : A)
      → follows before key at a b ≡ true
      → follows before key at b c ≡ true
      → follows before key at a c ≡ true
  unfolding follows
  follows_trans a b c h g = ground (arith, order.transitive (key a) (key b) (key c))

  follows_total :
      (a b : A)
      → str_eq (key a) (key b) ≡ false
      → follows before key at a b ≡ false
      → follows before key at b a ≡ true
  unfolding follows
  follows_total a b h g =
      ground (arith, order.total (key a) (key b), eq_iff (key a) (key b), eq_refl (key a))

  All-insert_newest :
      (P : A → Type 0) (x : A) (ys : List A)
      → P x
      → All P ys
      → All P (insert_newest before key at x ys)
  unfolding insert_newest
  All-insert_newest P x [] px h = (px, tt)
  All-insert_newest P x (y ∷ ys) px h = elim (Bool-cases (follows before key at y x)) [
    | inl here ↦ rw here (px, h)
    | inr later ↦ rw later (h.0, All-insert_newest P x ys px h.1)
  ]

  pub All-newest_first :
      (P : A → Type 0) (xs : List A) → All P xs → All P (newest_first before key at xs)
  unfolding newest_first
  All-newest_first P [] h = tt
  All-newest_first P (x ∷ xs) h =
      All-insert_newest P x (newest_first before key at xs) h.0 (All-newest_first P xs h.1)

  insert_newest-Sorted :
      (x : A) (ys : List A)
      → All (λ y. str_eq (key y) (key x) ≡ false) ys
      → Sorted before key at ys
      → Sorted before key at (insert_newest before key at x ys)
  unfolding insert_newest
  insert_newest-Sorted x [] new h = (tt, tt)
  insert_newest-Sorted x (y ∷ ys) new h = elim (Bool-cases (follows before key at y x)) [
    | inl here ↦ rw here ((here, All-map _ _ ys (λ z after. follows_trans z y x after here) h.0), h)
    | inr later ↦ rw later (
      All-insert_newest (λ z. follows before key at z y ≡ true) x ys (follows_total y x new.0 later)
          h.0,
      insert_newest-Sorted x ys new.1 h.1,
    )
  ]

  pub newest_first-Sorted :
      (xs : List A)
      → Distinct before key at xs
      → Sorted before key at (newest_first before key at xs)
  unfolding newest_first
  newest_first-Sorted [] d = tt
  newest_first-Sorted (x ∷ xs) d =
      insert_newest-Sorted x (newest_first before key at xs)
        (All-newest_first (λ y. str_eq (key y) (key x) ≡ false) xs d.0) (newest_first-Sorted xs d.1)

  pub All-filter : (P : A → Type 0) (p : A → Bool) (xs : List A) → All P xs → All P (filter p xs)
  All-filter P p [] h = tt
  All-filter P p (x ∷ xs) h = elim (Bool-cases (p x)) [
    | inl keep ↦ rw keep (h.0, All-filter P p xs h.1)
    | inr drop ↦ rw drop (All-filter P p xs h.1)
  ]

  insert_newest-first :
      (x : A) (ys : List A)
      → AllFollow before key at x ys
      → insert_newest before key at x ys ≡ x ∷ ys
  unfolding insert_newest
  insert_newest-first x [] h = refl
  insert_newest-first x (y ∷ ys) h = rw h.0 refl

  filter-insert_newest :
      (p : A → Bool) (x : A) (ys : List A)
      → Sorted before key at ys
      → filter p (insert_newest before key at x ys)
        ≡ (if p x then insert_newest before key at x (filter p ys) else filter p ys)
  unfolding insert_newest
  filter-insert_newest p x [] h = ground arith
  filter-insert_newest p x (y ∷ ys) h = elim (Bool-cases (follows before key at y x)) [
    | inl here ↦
        let all_after : AllFollow before key at x (filter p (y ∷ ys)) =
          All-filter (λ z. follows before key at z x ≡ true) p (y ∷ ys)
            (here, All-map _ _ ys (λ z after. follows_trans z y x after here) h.0) in
        rw (here, insert_newest-first x (filter p (y ∷ ys)) all_after) refl
    | inr later ↦ ground (arith, later, filter-insert_newest p x ys h.1)
  ]

  pub filter-newest_first :
      (p : A → Bool) (xs : List A)
      → Distinct before key at xs
      → filter p (newest_first before key at xs) ≡ newest_first before key at (filter p xs)
  unfolding newest_first
  filter-newest_first p [] d = refl
  filter-newest_first p (x ∷ xs) d =
      filter-insert_newest p x (newest_first before key at xs) (newest_first-Sorted xs d.1)
      ∙ elim (Bool-cases (p x)) [
        | inl keep ↦ rw (keep, filter-newest_first p xs d.1) refl
        | inr drop ↦ rw (drop, filter-newest_first p xs d.1) refl
      ]

  filter-All : (p : A → Bool) (xs : List A) → All (λ y. p y ≡ true) xs → filter p xs ≡ xs
  filter-All p [] h = refl
  filter-All p (x ∷ xs) h = rw (h.0, filter-All p xs h.1) refl

  -- What follows a row of a sorted list is the rest of the list.
  pub filter-follows :
      (xs : List A) (a : A) (ys : List A)
      → Sorted before key at (xs ++ a ∷ ys)
      → filter (λ r. follows before key at r a) (xs ++ a ∷ ys) ≡ ys
  filter-follows [] a ys h =
      rw (follows_self a) (filter-All (λ r. follows before key at r a) ys h.0)
  filter-follows (x ∷ xs) a ys h =
      let after : follows before key at a x ≡ true = member xs h.0 in
      elim (Bool-cases (follows before key at x a)) [
        | inl loop ↦ cc (follows_trans x a x loop after, follows_self x)
        | inr out ↦ rw out (filter-follows xs a ys h.1)
      ]
    where
      member :
          (zs : List A)
          → AllFollow before key at x (zs ++ a ∷ ys)
          → follows before key at a x ≡ true
      member [] g = g.0
      member (z ∷ zs) g = member zs g.1
