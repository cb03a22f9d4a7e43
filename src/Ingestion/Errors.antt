-- ===== src/Ingestion/Errors.antt =====
-- What the normalization of a form raises: `build_submission` of hymical_forms/ingestion.py.
use forms.Prelude.{ℕ, String, ◌≡◌, Bool, true, Option, List, [], ◌∷◌}
use forms.Messages.{Message, Details}
use forms.Exceptions.{Exception, submission_rejected}
use forms.Exceptions.Raises.{Raises, returns, raising, bind-Raises}
use forms.Models.{Instant, Fields}
use forms.Ingestion.{
  build_submission, collect, add_value, validate_field_name, validate_field_value,
}

module _ (p : Exception → Bool)
    (rejected : (code : String) (message : Message) (details : Option Details)
      → p (submission_rejected code message details) ≡ true) where
  validate_field_name-Raises : (name : String) (n : ℕ) → Raises p (validate_field_name name n)
  unfolding validate_field_name
  validate_field_name-Raises name n = search (raising, rejected)

  validate_field_value-Raises :
      (name value : String) (n : ℕ) → Raises p (validate_field_value name value n)
  unfolding validate_field_value
  validate_field_value-Raises name value n = search (raising, rejected)

  collect-Raises :
      (max_name max_value : ℕ) (items : List (String × String)) (fields : Fields)
      → Raises p (collect max_name max_value items fields)
  unfolding collect
  collect-Raises max_name max_value [] fields = returns fields
  collect-Raises max_name max_value ((name, value) ∷ rest) fields =
      bind-Raises p (validate_field_name name max_name) _ (validate_field_name-Raises name max_name)
        (λ _.
          bind-Raises p (validate_field_value name value max_value) _
            (validate_field_value-Raises name value max_value)
            (λ _. collect-Raises max_name max_value rest (add_value name value fields)))

  pub build_submission-Raises :
      (endpoint_id : String) (items : List (String × String)) (max_fields max_name max_value : ℕ)
      (id : String) (received_at : Instant)
      → Raises p (build_submission endpoint_id items max_fields max_name max_value id received_at)
  unfolding build_submission
  build_submission-Raises endpoint_id items max_fields max_name max_value id received_at =
      search (raising, rejected, collect-Raises) depth 8
