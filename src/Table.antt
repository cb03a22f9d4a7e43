-- ===== src/Table.antt =====
-- The SQL statements that the queries of storage.py are made of, on tables with a text for a
-- primary key. A table is the list of its rows; the order of the list means nothing. At most one
-- row holds a primary key, so a statement on one key acts on the first row that has it.
use forms.Prelude.{
  ℕ, String, ◌≡◌, refl, Bool, Option, none, some, List, [], ◌∷◌, arith, str_eq, eq_iff,
  if◌then◌else◌,
}

-- the effect of a conditional change on the row of a key, if there is one
abbrev pub changed {ℓ} : {A : Type ℓ} → (A → Bool) → (A → A) → Option A → Option A
changed p f none = none
changed p f (some r) = some (if p r then f r else r)

-- UPDATE ... WHERE id = k AND p: the number of rows that were changed.
abbrev pub row_count {ℓ} : {A : Type ℓ} → (A → Bool) → Option A → ℕ
row_count p none = 0
row_count p (some r) = if p r then 1 else 0

module _ {ℓ} {A : Type ℓ} (key : A → String) where
  -- SELECT ... WHERE id = k
  unfoldable pub find : String → List A → Option A
  find k [] = none
  find k (r ∷ t) = if str_eq (key r) k then some r else find k t

  -- UPDATE ... WHERE id = k AND p
  unfoldable pub update_at : String → (A → Bool) → (A → A) → List A → List A
  update_at k p f [] = []
  update_at k p f (r ∷ t) =
      let rest = update_at k p f t in
      if str_eq (key r) k then (if p r then f r else r) ∷ t else r ∷ rest

  pub find-key : (k : String) (t : List A) {r : A} → find k t ≡ some r → key r ≡ k
  unfolding find
  find-key k [] h = ground arith
  find-key k (x ∷ t) {r} h = ground (arith, eq_iff (key x) k, find-key k t {r = r})

  pub find-update_at :
      (k : String) (p : A → Bool) (f : A → A) (keeps : (r : A) → key (f r) ≡ key r) (j : String)
      (t : List A)
      → find j (update_at k p f t) ≡ (if str_eq k j then changed p f (find j t) else find j t)
  unfolding find update_at
  find-update_at k p f keeps j [] = ground arith
  find-update_at k p f keeps j (r ∷ t) = ground (
    arith,
    eq_iff (key r) k,
    eq_iff (key r) j,
    eq_iff (key (f r)) j,
    eq_iff k j,
    keeps r,
    find-update_at k p f keeps j t,
  )

  pub find-cons :
      (k : String) (r : A) (t : List A)
      → find k (r ∷ t) ≡ (if str_eq (key r) k then some r else find k t)
  unfolding find
  find-cons k r t = refl
