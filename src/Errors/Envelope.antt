-- ===== src/Errors/Envelope.antt =====
-- The envelope of an error and the errors that map onto it: `ErrorResponse`, `ApiError` and
-- `error_response` of hymical_forms/errors.py.
use forms.Prelude.{ℕ, String, Option, List, []}
use forms.Messages.{Part, Message, Details}

-- The value of a header is a text, or a number that `str` renders.
abbrev pub Headers : Type 0
Headers = List (String × Part)

-- The envelope, with its status and the headers that the status requires. The details are absent
-- when there are none.
pub record ErrorResponse : Type 0 where
  pub status_code : ℕ
  pub code : String
  pub message : Message
  pub details : Option Details
  pub headers : Headers

-- What an instance of a subclass of ApiError fixes and is given.
pub record ApiError : Type 0 where
  pub status_code : ℕ
  pub code : String
  pub message : Message
  pub details : Option Details
  pub headers : Headers

unfoldable pub error_response : ℕ → String → Message → Option Details → Headers → ErrorResponse
error_response status_code code message details headers = record {
  status_code = status_code;
  code = code;
  message = message;
  details = details;
  headers = headers;
}

unfoldable pub as_response : ApiError → ErrorResponse
unfolding error_response
as_response e = error_response e.status_code e.code e.message e.details e.headers

-- A class without headers of its own.
abbrev pub bare : ℕ → String → Message → Option Details → ApiError
bare status_code code message details = record {
  status_code = status_code;
  code = code;
  message = message;
  details = details;
  headers = [];
}
