-- ===== src/Errors/Submitting.antt =====
-- How a public submission that is refused is answered: `submit` of hymical_forms/api/submissions.py
-- with the handlers of hymical_forms/errors.py.
use forms.Prelude.{Bool, true}
use forms.Exceptions.{Exception, unicode_encode_error}
use forms.Exceptions.Raises.{Raises}
use forms.Errors.Reading.{is_documented}

-- It is answered as the route documents, or it is that a text cannot be encoded.
abbrev is_expected : Exception → Bool
is_expected unicode_encode_error = true
is_expected e = is_documented e
