-- ===== src/Export/Tables.antt =====
-- The shape of an export: hymical_forms/export.py.
use forms.Prelude.{
  ℕ, ◌+◌, String, ◌≡◌, refl, sym, ap, ◌∙◌, Bool, true, false, ◌||◌, List, [], ◌∷◌, ◌++◌, map, arith,
  codes, str_eq, eq_iff, elem, any, length, length-map, All, Bool-cases, inl, inr,
}
use forms.Models.{Instant, Fields}
use forms.Export.{
  ExportedSubmission, starts_formula, safe, remember, remember_fields, names_from, field_names, get,
  cell, row, header, csv_rows, metadata_columns,
}

-- Does a submission carry a field of this name?
unfoldable pub has_field : String → Fields → Bool
has_field name [] = false
has_field name ((n, values) ∷ rest) = str_eq n name || has_field name rest

abbrev pub NoDuplicates : List String → Type 0
NoDuplicates [] = Unit
NoDuplicates (x ∷ xs) = (elem x xs ≡ false) × NoDuplicates xs

-- A table whose columns are the given names after the metadata, and in which no cell is read as a
-- formula.
pub record IsTable (names : List String) (rows : List (List (List ℕ))) : Type 0 where
  pub width : All (λ r. length r ≡ 3 + length names) rows
  pub inert : All (All (λ c. starts_formula c ≡ false)) rows

elem-snoc :
    (name : String) (x : String) (xs : List String)
    → elem name (xs ++ x ∷ []) ≡ (elem name xs || str_eq x name)
elem-snoc name x [] = ground arith
elem-snoc name x (y ∷ xs) = ground (arith, elem-snoc name x xs)

snoc-NoDuplicates :
    (xs : List String) (x : String)
    → elem x xs ≡ false
    → NoDuplicates xs
    → NoDuplicates (xs ++ x ∷ [])
snoc-NoDuplicates [] x new h = (refl, tt)
snoc-NoDuplicates (y ∷ xs) x new h = (
  ground (arith, h.0, new, elem-snoc y x xs, eq_iff x y, eq_iff y x),
  snoc-NoDuplicates xs x (ground (arith, new)) h.1,
)

elem-remember :
    (name : String) (names : List String) (x : String)
    → elem name (remember names x) ≡ (elem name names || str_eq x name)
unfolding remember
elem-remember name names x = elim (Bool-cases (elem x names)) [
  | inr new ↦ rw new (elem-snoc name x names)
  | inl old ↦ elim (Bool-cases (str_eq x name)) [
    | inr other ↦ rw (old, other) (ground arith)
    | inl same ↦
        let e = (eq_iff x name).0 same in
        let there : elem name names ≡ true = ap (λ n. elem n names) (sym e) ∙ old in
        rw (old, same, there) refl
  ]
]

remember-NoDuplicates :
    (names : List String) (x : String) → NoDuplicates names → NoDuplicates (remember names x)
unfolding remember
remember-NoDuplicates names x h = elim (Bool-cases (elem x names)) [
  | inl old ↦ rw old h
  | inr new ↦ rw new (snoc-NoDuplicates names x new h)
]

elem-remember_fields :
    (name : String) (names : List String) (fields : Fields)
    → elem name (remember_fields names fields) ≡ (elem name names || has_field name fields)
unfolding remember_fields has_field
elem-remember_fields name names [] = ground arith
elem-remember_fields name names ((n, values) ∷ rest) =
    ground (arith, elem-remember_fields name (remember names n) rest, elem-remember name names n)

remember_fields-NoDuplicates :
    (names : List String) (fields : Fields)
    → NoDuplicates names
    → NoDuplicates (remember_fields names fields)
unfolding remember_fields
remember_fields-NoDuplicates names [] h = h
remember_fields-NoDuplicates names ((n, values) ∷ rest) h =
    remember_fields-NoDuplicates (remember names n) rest (remember-NoDuplicates names n h)

elem-names_from :
    (name : String) (names : List String) (submissions : List ExportedSubmission)
    → elem name (names_from names submissions)
      ≡ (elem name names || any (λ (s : ExportedSubmission). has_field name s.fields) submissions)
unfolding names_from
elem-names_from name names [] = ground arith
elem-names_from name names (s ∷ rest) = ground (
  arith,
  elem-names_from name (remember_fields names s.fields) rest,
  elem-remember_fields name names s.fields,
)

names_from-NoDuplicates :
    (names : List String) (submissions : List ExportedSubmission)
    → NoDuplicates names
    → NoDuplicates (names_from names submissions)
unfolding names_from
names_from-NoDuplicates names [] h = h
names_from-NoDuplicates names (s ∷ rest) h =
    names_from-NoDuplicates (remember_fields names s.fields) rest
      (remember_fields-NoDuplicates names s.fields h)

starts_formula-safe : (c : List ℕ) → starts_formula (safe c) ≡ false
unfolding safe
starts_formula-safe c = elim (Bool-cases (starts_formula c)) [
  | inl risky ↦ rw risky marked
  | inr plain ↦ rw plain plain
]
  where
    marked : starts_formula (0x27 ∷ c) ≡ false
    marked = refl

map-inert : (cells : List (List ℕ)) → All (λ c. starts_formula c ≡ false) (map safe cells)
map-inert [] = tt
map-inert (c ∷ cells) = (starts_formula-safe c, map-inert cells)

module _ (timestamp : Instant → List ℕ) (dumps : List String → List ℕ) where
  row-width :
      (s : ExportedSubmission) (names : List String)
      → length (row timestamp dumps s names) ≡ 3 + length names
  unfolding row
  row-width s names = omega (
    arith,
    length-map safe (map (λ name. cell timestamp dumps (get name s.fields)) names),
    length-map (λ name. cell timestamp dumps (get name s.fields)) names,
  )

  row-inert :
      (s : ExportedSubmission) (names : List String)
      → All (λ c. starts_formula c ≡ false) (row timestamp dumps s names)
  unfolding row
  row-inert s names = map-inert (
      codes s.id
      ∷ codes s.endpoint_id
      ∷ timestamp s.received_at
      ∷ map (λ name. cell timestamp dumps (get name s.fields)) names)

  each :
      (P : List (List ℕ) → Type 0) (names : List String)
      → ((s : ExportedSubmission) → P (row timestamp dumps s names))
      → (submissions : List ExportedSubmission)
      → All P (map (λ submission. row timestamp dumps submission names) submissions)
  each P names h [] = tt
  each P names h (s ∷ rest) = (h s, each P names h rest)

  -- A CSV export is a table: every row has a cell for each metadata column and each name; no cell,
  -- header included, starts with a character that makes it a formula. Its names are exactly the
  -- field names that occur in the export, each once.
  pub csv_rows-IsTable :
      (submissions : List ExportedSubmission) (name : String)
      → IsTable (field_names submissions) (csv_rows timestamp dumps submissions)
        × NoDuplicates (field_names submissions)
        × (elem name (field_names submissions)
            ≡ any (λ (s : ExportedSubmission). has_field name s.fields) submissions)
  unfolding csv_rows field_names header row
  csv_rows-IsTable submissions name =
      let names = field_names submissions in
      (
        record {
          width = (
            omega (
              arith,
              length-map safe (metadata_columns ++ map codes names),
              length-map codes names,
            ),
            each (λ r. length r ≡ 3 + length names) names (λ s. row-width s names) submissions,
          );
          inert = (
            map-inert (metadata_columns ++ map codes names),
            each (All (λ c. starts_formula c ≡ false)) names (λ s. row-inert s names) submissions,
          );
        },
        names_from-NoDuplicates [] submissions tt,
        elem-names_from name [] submissions,
      )
