-- ===== src/Ingestion/Grouping.antt =====
-- The values under each name, and what the validators accept: hymical_forms/ingestion.py.
use forms.Prelude.{
  ℕ, ◌+◌, ◌≤◌, ◌<◌, String, ◌≡◌, refl, false, List, [], ◌∷◌, ◌++◌, arith, ◌==◌, str_eq, eq_iff,
  codes, if◌then◌else◌, length, any,
}
use forms.Exceptions.{Result, ok, err, ◌>>◌}
use forms.Models.{Fields}
use forms.Ingestion.{count_values, is_control, validate_field_name, validate_field_value, add_value}

-- The values under a name; a name that is absent has none.
unfoldable pub values_of : String → Fields → List String
values_of name [] = []
values_of name ((n, values) ∷ rest) = if str_eq n name then values else values_of name rest

-- The values that the pairs give a name, in their order.
unfoldable pub submitted : String → List (String × String) → List String
submitted name [] = []
submitted name ((n, value) ∷ rest) =
    let later = submitted name rest in if str_eq n name then value ∷ later else later

-- A pair that the rules accept.
pub record IsAcceptable (max_name max_value : ℕ) (item : String × String) : Type 0 where
  pub named : 0 < length (codes item.0)
  pub name_fits : length (codes item.0) ≤ max_name
  pub name_clean : any is_control (codes item.0) ≡ false
  pub value_fits : length (codes item.1) ≤ max_value
  pub value_clean : any (λ c. c == 0) (codes item.1) ≡ false

length-snoc :
    (values : List String) (value : String) → length (values ++ value ∷ []) ≡ length values + 1
length-snoc [] value = omega arith
length-snoc (v ∷ values) value = omega (arith, length-snoc values value)

pub count-add_value :
    (name value : String) (fields : Fields)
    → count_values (add_value name value fields) ≡ count_values fields + 1
unfolding count_values add_value
count-add_value name value [] = omega arith
count-add_value name value ((n, values) ∷ rest) =
    ground (arith, count-add_value name value rest, length-snoc values value)

pub values_of-add_value :
    (name value other : String) (fields : Fields)
    → values_of other (add_value name value fields)
      ≡ (if str_eq name other then values_of other fields ++ value ∷ [] else values_of other fields)
unfolding values_of add_value
values_of-add_value name value other [] = ground (arith)
values_of-add_value name value other ((n, values) ∷ rest) = ground (
  arith,
  eq_iff n name,
  eq_iff n other,
  eq_iff name other,
  values_of-add_value name value other rest,
)

pub name_accepted :
    (name : String) (max_length : ℕ)
    → validate_field_name name max_length ≡ ok tt
    → (0 < length (codes name))
      × (length (codes name) ≤ max_length)
      × (any is_control (codes name) ≡ false)
unfolding validate_field_name
name_accepted name max_length h = ground arith

pub value_accepted :
    (name value : String) (max_length : ℕ)
    → validate_field_value name value max_length ≡ ok tt
    → (length (codes value) ≤ max_length) × (any (λ c. c == 0) (codes value) ≡ false)
unfolding validate_field_value
value_accepted name value max_length h = ground arith

pub accepts :
    (max_name max_value : ℕ) (item : String × String)
    → IsAcceptable max_name max_value item
    → (validate_field_name item.0 max_name ≡ ok tt)
      × (validate_field_value item.0 item.1 max_value ≡ ok tt)
unfolding validate_field_name validate_field_value
accepts max_name max_value item h = (
  rw (h.name_clean) (ground (arith, h.named, h.name_fits)),
  rw (h.value_clean) (ground (arith, h.value_fits)),
)

-- The three steps of a round of the loop, none of which raised.
pub round_ok {ℓ} :
    {A : Type ℓ} (m n : Result (Unit {0})) (k : Result A) {a : A}
    → (do m; n; k) ≡ ok a
    → (m ≡ ok tt) × (n ≡ ok tt) × (k ≡ ok a)
round_ok (ok a) (ok b) k h = (refl, refl, h)
round_ok (ok a) (err e) k h = cc
round_ok (err e) n k h = cc
