-- ===== src/Submit/Forms.antt =====
-- The media type and the body of a public submission: `_media_type`, `_parse_form` and
-- `_failure_reason` of hymical_forms/api/submissions.py. The parsers of Starlette are arguments.
use forms.Prelude.{
  same_text, lower_all, ℕ, String, Bool, ◌||◌, Option, none, some, List, [], ◌∷◌, ◌==◌, codes,
  if◌then◌else◌,
}
use forms.Exceptions.{
  Exception, Result, ok, err, malformed_form_body, file_upload_not_supported, ◌>>=◌,
}
use forms.RateLimit.{strip}
use forms.Config.{Settings}

-- `text.split(";", 1)[0]`
unfoldable pub before_semicolon : List ℕ → List ℕ
before_semicolon [] = []
before_semicolon (c ∷ rest) = let head = before_semicolon rest in if c == 0x3b then [] else c ∷ head

unfoldable pub media_type : Option (List ℕ) → List ℕ
unfolding before_semicolon lower_all
media_type none = []
media_type (some content_type) = lower_all (strip (before_semicolon content_type))

abbrev pub urlencoded : String
urlencoded = "application/x-www-form-urlencoded"

abbrev pub multipart : String
multipart = "multipart/form-data"

-- `media_type in SUPPORTED_MEDIA_TYPES`
unfoldable pub is_supported : List ℕ → Bool
unfolding same_text
is_supported text = same_text text (codes urlencoded) || same_text text (codes multipart)

-- A value of a parsed form: a text, or an UploadFile.
pub data FormValue : Type 0 where
  field : String → FormValue
  upload : FormValue

pub data ParserFailure : Type 0 where
  multi_part_exception : (message : String) → ParserFailure
  parse_error : (text : String) → ParserFailure

-- What `parse` does: it returns a form with these items, it raises one of its own exceptions, or
-- the stream that it reads raises.
pub data Parsed : Type 0 where
  form : (multi_items : List (String × FormValue)) → Parsed
  failed : ParserFailure → Parsed
  interrupted : Exception → Parsed

-- The two parsers, on the headers and the stream of one request.
pub record Parsers : Type 0 where
  pub form_parser : (max_part_size : ℕ) → Parsed
  pub multi_part_parser : (max_part_size : ℕ) → Parsed

unfoldable pub failure_reason : ParserFailure → String
failure_reason (multi_part_exception message) = message
failure_reason (parse_error text) = text

-- The loop over the items, which stops at the first file.
unfoldable pub text_items : List (String × FormValue) → Result (List (String × String))
text_items [] = ok []
text_items ((name, upload) ∷ rest) = err (file_upload_not_supported name)
text_items ((name, field value) ∷ rest) = do items ← text_items rest; ok ((name, value) ∷ items)

unfoldable pub read_form : Parsed → Result (List (String × String))
unfolding text_items failure_reason
read_form (form items) = text_items items
read_form (failed failure) = err (malformed_form_body (failure_reason failure))
read_form (interrupted e) = err e

unfoldable pub parse_form :
    Parsers → (media_type : List ℕ) → Settings → Result (List (String × String))
unfolding read_form same_text
parse_form parsers media_type settings = read_form (
    if same_text media_type (codes multipart)
    then parsers.multi_part_parser settings.max_body_bytes
    else parsers.form_parser settings.max_body_bytes)
