-- ===== src/Export.antt =====
-- hymical_forms/export.py: the rows of a CSV export and the pieces of a JSON one. A cell is a list
-- of code points. `timestamp` renders an instant; `dumps` is `json.dumps` of a list of texts and
-- `dumps_object` of an object; `write_row` is `csv.writer` with its line ending.
pub mod Tables
use forms.Prelude.{
  ℕ, String, Bool, true, false, ◌||◌, Option, none, some, List, [], ◌∷◌, ◌++◌, map, ◌==◌, codes,
  str_eq, elem, if◌then◌else◌,
}
use forms.Models.{Instant, Fields, SubmissionRow}

pub record ExportedSubmission : Type 0 where
  pub id : String
  pub endpoint_id : String
  pub received_at : Instant
  pub fields : Fields

-- `_exportable` of hymical_forms/api/submission_management.py.
unfoldable pub exportable : SubmissionRow → ExportedSubmission
exportable submission = record {
  id = submission.id;
  endpoint_id = submission.endpoint_id;
  received_at = submission.received_at;
  fields = submission.fields;
}

abbrev pub metadata_columns : List (List ℕ)
metadata_columns = codes "submission_id" ∷ codes "endpoint_id" ∷ codes "received_at" ∷ []

-- = + - @, tab and carriage return
unfoldable pub is_formula_leader : ℕ → Bool
is_formula_leader c = c == 0x3d || c == 0x2b || c == 0x2d || c == 0x40 || c == 9 || c == 13

unfoldable pub starts_formula : List ℕ → Bool
unfolding is_formula_leader
starts_formula [] = false
starts_formula (c ∷ rest) = is_formula_leader c

unfoldable pub safe : List ℕ → List ℕ
unfolding starts_formula
safe cell = if starts_formula cell then 0x27 ∷ cell else cell

-- `names[name] = None`: a name that is met again keeps its place.
unfoldable pub remember : List String → String → List String
remember names name = if elem name names then names else names ++ name ∷ []

unfoldable pub remember_fields : List String → Fields → List String
unfolding remember
remember_fields names [] = names
remember_fields names ((name, values) ∷ rest) = remember_fields (remember names name) rest

unfoldable pub names_from : List String → List ExportedSubmission → List String
unfolding remember_fields
names_from names [] = names
names_from names (submission ∷ rest) = names_from (remember_fields names submission.fields) rest

unfoldable pub field_names : List ExportedSubmission → List String
unfolding names_from
field_names submissions = names_from [] submissions

-- `fields.get(name)`
unfoldable pub get : String → Fields → Option (List String)
get name [] = none
get name ((n, values) ∷ rest) = if str_eq n name then some values else get name rest

module _ (timestamp : Instant → List ℕ) (dumps : List String → List ℕ) where
  abbrev pub cell : Option (List String) → List ℕ
  cell none = []
  cell (some values) = dumps values

  unfoldable pub row : ExportedSubmission → List String → List (List ℕ)
  unfolding safe get
  row submission names = map safe (
      codes submission.id
      ∷ codes submission.endpoint_id
      ∷ timestamp submission.received_at
      ∷ map (λ name. cell (get name submission.fields)) names)

  unfoldable pub header : List String → List (List ℕ)
  unfolding safe
  header names = map safe (metadata_columns ++ map codes names)

  unfoldable pub csv_rows : List ExportedSubmission → List (List (List ℕ))
  unfolding field_names row header
  csv_rows submissions =
      let names = field_names submissions in
      header names ∷ map (λ submission. row submission names) submissions

  abbrev written : (List (List ℕ) → List ℕ) → List (List (List ℕ)) → List ℕ
  written write_row [] = []
  written write_row (r ∷ rest) = write_row r ++ written write_row rest

  unfoldable pub csv_document :
      (write_row : List (List ℕ) → List ℕ) → List ExportedSubmission → List ℕ
  unfolding csv_rows
  csv_document write_row submissions = written write_row (csv_rows submissions)

-- The object of one submission: its timestamp rendered, its values as they are.
pub record ExportedObject : Type 0 where
  pub id : String
  pub endpoint_id : String
  pub received_at : List ℕ
  pub fields : Fields

unfoldable pub as_object : (timestamp : Instant → List ℕ) → ExportedSubmission → ExportedObject
as_object timestamp submission = record {
  id = submission.id;
  endpoint_id = submission.endpoint_id;
  received_at = timestamp submission.received_at;
  fields = submission.fields;
}

module _ (timestamp : Instant → List ℕ) (dumps_object : ExportedObject → List ℕ) where
  -- The loop of the generator, with its separator.
  unfoldable pub pieces : List ℕ → List ExportedSubmission → List (List ℕ)
  unfolding as_object
  pieces separator [] = codes "]}" ∷ []
  pieces separator (submission ∷ rest) =
      (separator ++ dumps_object (as_object timestamp submission)) ∷ pieces (codes ",") rest

  unfoldable pub json_document : List ExportedSubmission → List (List ℕ)
  unfolding pieces
  json_document submissions = codes "{\"submissions\":[" ∷ pieces [] submissions
