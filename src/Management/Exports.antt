-- ===== src/Management/Exports.antt =====
-- An export is everything or an error: `export_submissions` of
-- hymical_forms/api/submission_management.py.
use forms.Prelude.{
  same_text, ℕ, ◌+◌, ◌≤◌, String, ◌≡◌, refl, sym, ◌∙◌, Bool, true, false, ◌||◌, Option, List, map,
  arith, ltb, codes, length, take, take-all, length-take, filter, Bool-cases, inl, inr,
}
use forms.Exceptions.{ok}
use forms.Models.{Instant, SubmissionRow, Db}
use forms.Pages.{newest_first}
use forms.Pages.Order.{length-newest_first}
use forms.Storage.Listings.{SubmissionFilter, narrowed, count_submissions, stream_submissions}
use forms.Export.{exportable, csv_document, json_document}
use forms.Management.{filters_of, is_empty_range}
use forms.Management.Documents.{
  Writers, ExportBody, json, csv, chosen_format, export_body, export_submissions,
}

-- All the submissions that a filter matches, newest first.
abbrev pub everything :
    (before : String → String → Bool) → SubmissionFilter → Db → List SubmissionRow
everything before filters db =
    newest_first before (λ s. s.id) (λ s. s.received_at) (filter (narrowed filters) db.submissions)

abbrev pub document_of : (is_csv : Bool) → Writers → List SubmissionRow → ExportBody
document_of true writers rows =
    csv (csv_document writers.timestamp writers.dumps writers.write_row (map exportable rows))
document_of false writers rows =
    json (json_document writers.timestamp writers.dumps_object (map exportable rows))

body_whole :
    (before : String → String → Bool) (writers : Writers) (is_csv : Bool)
    (filters : SubmissionFilter) (maximum : ℕ) (db : Db)
    → ltb maximum (count_submissions filters (maximum + 1) db) ≡ false
    → export_body before writers is_csv filters maximum db
      ≡ document_of is_csv writers (everything before filters db)
unfolding count_submissions export_body stream_submissions
body_whole before writers is_csv filters maximum db room =
    let matched = filter (narrowed filters) db.submissions in
    let fits : length matched ≤ maximum = ground (arith, room, length-take (maximum + 1) matched) in
    let whole : take maximum (everything before filters db) ≡ everything before filters db =
      take-all maximum (everything before filters db) (
        omega (
          arith,
          fits,
          length-newest_first before (λ (s : SubmissionRow). s.id) (λ s. s.received_at) matched,
        )) in
    pick is_csv whole
  where
    pick :
        (b : Bool)
        → take maximum (everything before filters db) ≡ everything before filters db
        → export_body before writers b filters maximum db
          ≡ document_of b writers (everything before filters db)
    pick true whole = rw whole refl
    pick false whole = rw whole refl

-- An export that is not refused carries every submission that its filter matches, newest first,
-- in the format that was chosen, where the store did not change after they were counted.
pub export_complete :
    (before : String → String → Bool) (writers : Writers) (format : Option (List ℕ))
    (endpoint_id : Option String) (received_after received_before : Option Instant) (maximum : ℕ)
    (db : Db) (body : ExportBody)
    → export_submissions before writers format endpoint_id received_after received_before maximum db
        db
      ≡ ok body
    → let filters : SubmissionFilter = record {
      endpoint_id = endpoint_id;
      received_after = received_after;
      received_before = received_before;
    } in
      body
      ≡ document_of
          (same_text (chosen_format writers format) (codes "csv"))
          writers
          (everything before filters db)
unfolding export_submissions filters_of
export_complete before writers format endpoint_id a b maximum db body done =
    let filters : SubmissionFilter = record {
      endpoint_id = endpoint_id;
      received_after = a;
      received_before = b;
    } in
    let chosen = chosen_format writers format in
    elim (Bool-cases (same_text chosen (codes "json") || same_text chosen (codes "csv"))) [
      | inr bad ↦ cc (rw bad at done)
      | inl good ↦ elim (Bool-cases (is_empty_range a b)) [
        | inl empty ↦ cc (rw (good, empty) at done)
        | inr range ↦ elim (Bool-cases (ltb maximum (count_submissions filters (maximum + 1) db))) [
          | inl many ↦ cc (rw (good, range, many) at done)
          | inr room ↦
              let is = rw (good, range, room) at done in
              let same : export_body before writers (same_text chosen (codes "csv")) filters maximum
                    db
                  ≡ body =
                cc in
              sym same
              ∙ body_whole before writers (same_text chosen (codes "csv")) filters maximum db room
        ]
      ]
    ]
