-- ===== src/Management/Documents.antt =====
-- The export of hymical_forms/api/submission_management.py, after a request has been authenticated and
-- parsed. `before` is the database's order on texts.
use forms.Prelude.{
  same_text, ℕ, ◌+◌, String, Bool, true, false, not, ◌||◌, Option, none, some, List, [], ◌∷◌, map,
  ltb, codes,
}
use forms.Exceptions.{Result, ok, unsupported_export_format, export_too_large, refuse, ◌>>=◌, ◌>>◌}
use forms.Models.{Instant, Db}
use forms.Storage.Listings.{SubmissionFilter, count_submissions, stream_submissions}
use forms.Export.{ExportedObject, exportable, csv_document, json_document}
use forms.Management.{filters_of}

-- The body of an export.
pub data ExportBody : Type 0 where
  json : List (List ℕ) → ExportBody
  csv : List ℕ → ExportBody

-- The functions of the standard library that an export is written with, as in Export, and
-- `str.lower`.
pub record Writers : Type 0 where
  pub lower : List ℕ → List ℕ
  pub timestamp : Instant → List ℕ
  pub dumps : List String → List ℕ
  pub dumps_object : ExportedObject → List ℕ
  pub write_row : List (List ℕ) → List ℕ

-- `(format or JSON_FORMAT).lower()`
unfoldable pub chosen_format : Writers → Option (List ℕ) → List ℕ
chosen_format writers none = writers.lower (codes "json")
chosen_format writers (some []) = writers.lower (codes "json")
chosen_format writers (some (c ∷ rest)) = writers.lower (c ∷ rest)

unfoldable pub export_body :
    (before : String → String → Bool)
    → Writers
    → (is_csv : Bool) → SubmissionFilter
    → (maximum : ℕ) → Db
    → ExportBody
export_body before writers true filters maximum db = csv (
    csv_document writers.timestamp writers.dumps writers.write_row
      (map exportable (stream_submissions before filters maximum db)))
export_body before writers false filters maximum db = json (
    json_document writers.timestamp writers.dumps_object
      (map exportable (stream_submissions before filters maximum db)))

-- `later` is the store as the body is written, in a statement of its own after the count.
unfoldable pub export_submissions :
    (before : String → String → Bool)
    → Writers
    → (format : Option (List ℕ)) (endpoint_id : Option String)
      (received_after received_before : Option Instant) (maximum : ℕ) (later : Db)
    → Db
    → Result ExportBody
unfolding chosen_format filters_of export_body
export_submissions before writers format endpoint_id received_after received_before maximum later
      db =
    do
      let chosen = chosen_format writers format
      refuse (not (same_text chosen (codes "json") || same_text chosen (codes "csv")))
          unsupported_export_format
      filters ← filters_of endpoint_id received_after received_before
      refuse (ltb maximum (count_submissions filters (maximum + 1) db)) (export_too_large maximum)
      ok (export_body before writers (same_text chosen (codes "csv")) filters maximum later)
