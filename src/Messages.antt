-- ===== src/Messages.antt =====
-- What an error says: the message and the details that the classes of hymical_forms/errors.py and
-- hymical_forms/ingestion.py carry. A message is kept as the parts of its f-string, so that the
-- formatting of a number and the quoting of a text (`!r`) are not needed.
use forms.Prelude.{ℕ, String, Option, List}

pub data Part : Type 0 where
  text : String → Part
  number : ℕ → Part
  quoted : String → Part

abbrev pub Message : Type 0
Message = List Part

-- A value of the details. `characters` is a text as code points, `issues` the fields and issues of a
-- request that was not validated.
pub data Value : Type 0 where
  null : Value
  string : String → Value
  characters : List ℕ → Value
  integer : ℕ → Value
  strings : List String → Value
  issues : List (Option Message × String) → Value

-- One error of a RequestValidationError. A part of its location is a text or a number, and `input`
-- is what was refused.
pub record ValidationError : Type 0 where
  pub loc : List Part
  pub msg : String
  pub input : String

abbrev pub Details : Type 0
Details = List (String × Value)
