-- ===== src/Ingestion.antt =====
-- hymical_forms/ingestion.py: endpoint identifiers, idempotency keys, and the normalization of
-- form pairs into a submission. Texts are walked by code points, which are what `len` counts.
pub mod Grouping
pub mod Normalization
pub mod Identifiers
pub mod Errors
use forms.Prelude.{
  Option, ℕ, ◌+◌, String, Bool, true, false, none, some, ◌&&◌, ◌||◌, List, [], ◌∷◌, ◌++◌, ltb, leb,
  ◌==◌, str_eq, codes, if◌then◌else◌, length, all, any,
}
use forms.Messages.{text, number, quoted, string, integer}
use forms.Exceptions.{Exception, Result, ok, encoded, submission_rejected, refuse, ◌>>=◌, ◌>>◌}
use forms.Models.{Instant, Fields}

abbrev pub endpoint_id_min_length : ℕ
endpoint_id_min_length = 3

abbrev pub endpoint_id_max_length : ℕ
endpoint_id_max_length = 64

abbrev pub idempotency_key_min_length : ℕ
idempotency_key_min_length = 16

abbrev pub idempotency_key_max_length : ℕ
idempotency_key_max_length = 255

-- [a-z0-9]
unfoldable pub is_alphanumeric : ℕ → Bool
is_alphanumeric c = leb b'a' c && leb c b'z' || leb b'0' c && leb c b'9'

-- [a-z0-9_-]
unfoldable pub is_id_character : ℕ → Bool
unfolding is_alphanumeric
is_id_character c = is_alphanumeric c || c == b'_' || c == b'-'

-- [a-z0-9_-]*[a-z0-9], to the end of the text
unfoldable pub id_ending : List ℕ → Bool
unfolding is_id_character
id_ending [] = false
id_ending (c ∷ []) = is_alphanumeric c
id_ending (c ∷ d ∷ rest) = is_id_character c && id_ending (d ∷ rest)

-- [a-z0-9](?:[a-z0-9_-]*[a-z0-9])?, the whole text
unfoldable pub matches_id_pattern : List ℕ → Bool
unfolding id_ending
matches_id_pattern [] = false
matches_id_pattern (c ∷ []) = is_alphanumeric c
matches_id_pattern (c ∷ d ∷ rest) = is_alphanumeric c && id_ending (d ∷ rest)

unfoldable pub is_valid_endpoint_id : String → Bool
unfolding matches_id_pattern
is_valid_endpoint_id value =
    let n = length (codes value) in
    leb endpoint_id_min_length n && leb n endpoint_id_max_length && matches_id_pattern (codes value)

-- [!-~]
unfoldable pub is_printable : ℕ → Bool
is_printable c = leb b'!' c && leb c b'~'

-- [!-~]+, the whole text
unfoldable pub matches_key_pattern : List ℕ → Bool
unfolding is_printable
matches_key_pattern [] = false
matches_key_pattern (c ∷ rest) = is_printable c && all is_printable rest

unfoldable pub is_valid_idempotency_key : String → Bool
unfolding matches_key_pattern
is_valid_idempotency_key value =
    let n = length (codes value) in
    leb idempotency_key_min_length n
    && leb n idempotency_key_max_length
    && matches_key_pattern (codes value)

pub record Submission : Type 0 where
  pub id : String
  pub endpoint_id : String
  pub received_at : Instant
  pub fields : Fields

unfoldable pub count_values : Fields → ℕ
count_values [] = 0
count_values ((name, values) ∷ rest) = length values + count_values rest

-- The property `field_count`.
unfoldable pub field_count : Submission → ℕ
unfolding count_values
field_count submission = count_values submission.fields

-- [\x00-\x1f\x7f-\x9f]
unfoldable pub is_control : ℕ → Bool
is_control c = leb c 0x1f || leb 0x7f c && leb c 0x9f

abbrev pub empty_name : Exception
empty_name =
    submission_rejected "invalid_field_name"
      (text "Submission contains a field with an empty name." ∷ []) none

abbrev pub name_too_long : (max_length received : ℕ) → Exception
name_too_long max_length received =
    submission_rejected "field_name_too_long"
      (text "A field name exceeds the limit of " ∷ number max_length ∷ text " characters." ∷ [])
      (some (("limit", integer max_length) ∷ ("received", integer received) ∷ []))

abbrev pub control_characters : Exception
control_characters =
    submission_rejected "invalid_field_name"
      (text "Submission contains a field name with control characters." ∷ []) none

unfoldable pub validate_field_name : String → ℕ → Result (Unit {0})
unfolding is_control
validate_field_name name max_length =
    let n = length (codes name) in
    do
      refuse (n == 0) empty_name
      refuse (ltb max_length n) (name_too_long max_length n)
      refuse (any is_control (codes name)) control_characters

abbrev pub value_too_long : String → (max_length received : ℕ) → Exception
value_too_long name max_length received =
    submission_rejected "field_value_too_long"
      (text "The value of field "
        ∷ quoted name
        ∷ text " exceeds the limit of "
        ∷ number max_length
        ∷ text " characters."
        ∷ [])
      (some (
        ("field", string name)
        ∷ ("limit", integer max_length)
        ∷ ("received", integer received)
        ∷ []))

abbrev pub null_byte : String → Exception
null_byte name =
    submission_rejected "invalid_field_value"
      (text "The value of field " ∷ quoted name ∷ text " contains a null byte." ∷ [])
      (some (("field", string name) ∷ []))

unfoldable pub validate_field_value : (name value : String) → ℕ → Result (Unit {0})
validate_field_value name value max_length =
    let n = length (codes value) in
    do
      refuse (ltb max_length n) (value_too_long name max_length n)
      refuse (any (λ c. c == 0) (codes value)) (null_byte name)

-- The digest of the fields: `json.dumps` of the pairs of a name and its values, with the separators
-- and the encoding of the source, if it can be encoded, and SHA-256 in hexadecimal are arguments.
unfoldable pub payload_fingerprint :
    (dumps : Fields → Option (List ℕ)) (sha256 : List ℕ → String) → Fields → Result String
payload_fingerprint dumps sha256 fields = do bytes ← encoded (dumps fields); ok (sha256 bytes)

-- `fields[name] = (*fields.get(name, ()), value)`: a new name goes last.
unfoldable pub add_value : String → String → Fields → Fields
add_value name value [] = (name, value ∷ []) ∷ []
add_value name value ((n, values) ∷ rest) =
    if str_eq n name
    then (n, values ++ value ∷ []) ∷ rest
    else (n, values) ∷ add_value name value rest

-- The loop over the pairs.
unfoldable pub collect : (max_name max_value : ℕ) → List (String × String) → Fields → Result Fields
collect max_name max_value [] fields = ok fields
collect max_name max_value ((name, value) ∷ rest) fields =
    let next = collect max_name max_value rest (add_value name value fields) in
    do validate_field_name name max_name; validate_field_value name value max_value; next

abbrev pub is_empty {ℓ} : {A : Type ℓ} → List A → Bool
is_empty [] = true
is_empty (x ∷ xs) = false

abbrev pub too_many_fields : (max_fields received : ℕ) → Exception
too_many_fields max_fields received =
    submission_rejected "too_many_fields"
      (text "Submission carries "
        ∷ number received
        ∷ text " fields, which exceeds the limit of "
        ∷ number max_fields
        ∷ text "."
        ∷ [])
      (some (("limit", integer max_fields) ∷ ("received", integer received) ∷ []))

abbrev pub empty_submission : Exception
empty_submission =
    submission_rejected "empty_submission" (text "Submission contains no fields." ∷ []) none

-- `id` and `received_at` are what `new_submission_id` and the clock give.
unfoldable pub build_submission :
    (endpoint_id : String) (items : List (String × String))
    (max_fields max_field_name_length max_field_value_length : ℕ) (id : String)
    (received_at : Instant)
    → Result Submission
build_submission endpoint_id items max_fields max_name max_value id received_at = do
  refuse (ltb max_fields (length items)) (too_many_fields max_fields (length items))
  fields ← collect max_name max_value items []
  refuse (is_empty fields) empty_submission
  ok (record { id = id; endpoint_id = endpoint_id; received_at = received_at; fields = fields })
