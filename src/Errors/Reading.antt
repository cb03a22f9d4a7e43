-- ===== src/Errors/Reading.antt =====
-- What the reading of a submission raises: the media type, the key, the body and the normalization, in
-- hymical_forms/api/submissions.py, with the statuses that its route documents.
use forms.Prelude.{
  not, ℕ, String, ◌≡◌, refl, ap, Bool, Option, none, some, List, [], ◌∷◌, ◌==◌, any, codes,
  Bool-cases, inl, inr, same_text,
}
use forms.Exceptions.{
  endpoint_inactive, unsupported_media_type, Exception, request_body_too_large,
  file_upload_not_supported,
}
use forms.Exceptions.Raises.{Raises, returns, raises, bind-Raises, guard-Raises}
use forms.Models.{Instant, Endpoint}
use forms.Config.{Settings}
use forms.Ingestion.Errors.{build_submission-Raises}
use forms.Submit.Forms.{
  FormValue, field, upload, Parsed, failed, interrupted, Parsers, text_items, read_form, parse_form,
  multipart, media_type, is_supported,
}
use forms.Submit.{Request, checked_key, read_submission}
use forms.Errors.{answer}

-- The statuses that `responses` of the route lists.
abbrev pub documented : List ℕ
documented = 400 ∷ 404 ∷ 409 ∷ 413 ∷ 415 ∷ 422 ∷ 429 ∷ 503 ∷ []

abbrev pub is_documented : Exception → Bool
is_documented e = any (λ s. s == (answer e).status_code) documented

-- The stream of the body raises nothing but the error of the body limit.
pub record IsCapped (parsers : Parsers) : Type 0 where
  pub plain :
      (n : ℕ) (e : Exception)
      → parsers.form_parser n ≡ interrupted e
      → (limit : ℕ) × (e ≡ request_body_too_large limit)
  pub parts :
      (n : ℕ) (e : Exception)
      → parsers.multi_part_parser n ≡ interrupted e
      → (limit : ℕ) × (e ≡ request_body_too_large limit)

text_items-Raises : (items : List (String × FormValue)) → Raises is_documented (text_items items)
unfolding text_items answer
text_items-Raises [] = returns []
text_items-Raises ((name, upload) ∷ rest) = raises (file_upload_not_supported name) refl
text_items-Raises ((name, field value) ∷ rest) =
    bind-Raises is_documented (text_items rest) _ (text_items-Raises rest)
      (λ items. returns ((name, value) ∷ items))

read_form-Raises :
    (parsed : Parsed)
    → ((e : Exception) → parsed ≡ interrupted e → (limit : ℕ) × (e ≡ request_body_too_large limit))
    → Raises is_documented (read_form parsed)
unfolding read_form answer
read_form-Raises (Parsed.form items) h = text_items-Raises items
read_form-Raises (failed failure) h = raises _ refl
read_form-Raises (interrupted e) h = let (limit, is) = h e refl in raises e (ap is_documented is)

parse_form-Raises :
    (parsers : Parsers) (media : List ℕ) (settings : Settings)
    → IsCapped parsers
    → Raises is_documented (parse_form parsers media settings)
unfolding parse_form
parse_form-Raises parsers media settings capped =
    elim (Bool-cases (same_text media (codes multipart))) [
      | inl parts ↦ rw parts (
          read_form-Raises (parsers.multi_part_parser settings.max_body_bytes)
            (capped.parts settings.max_body_bytes))
      | inr plain ↦ rw plain (
          read_form-Raises (parsers.form_parser settings.max_body_bytes)
            (capped.plain settings.max_body_bytes))
    ]

checked_key-Raises : (key : Option String) → Raises is_documented (checked_key key)
unfolding checked_key answer
checked_key-Raises none = returns none
checked_key-Raises (some key) = guard-Raises is_documented _ _ _ refl (returns (some key))

pub read_submission-Raises :
    (settings : Settings) (request : Request) (form : Endpoint) (submission_id : String)
    (received_at : Instant)
    → IsCapped request.parsers
    → Raises is_documented (read_submission settings request form submission_id received_at)
unfolding read_submission answer
read_submission-Raises settings request form submission_id received_at capped =
    let media = media_type request.content_type in
    guard-Raises is_documented (not form.is_active) (endpoint_inactive form.id) _ refl (
      guard-Raises is_documented (not (is_supported media)) (unsupported_media_type media) _ refl (
        bind-Raises is_documented (checked_key request.idempotency_key) _
          (checked_key-Raises request.idempotency_key)
          (λ key.
            bind-Raises is_documented (parse_form request.parsers media settings) _
              (parse_form-Raises request.parsers media settings capped)
              (λ items.
                bind-Raises is_documented _ _
                  (build_submission-Raises is_documented (λ code message details. refl) form.id
                    items settings.max_fields settings.max_field_name_length
                    settings.max_field_value_length submission_id received_at)
                  (λ submission. returns (key, submission))))))
