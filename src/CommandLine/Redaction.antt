-- ===== src/CommandLine/Redaction.antt =====
-- What is shown of a driver's message: `_redact` of hymical_forms/cli.py. A text is a list of code
-- points.
use forms.Prelude.{
  ℕ, zero, suc, ◌-◌, String, ◌≡◌, refl, Bool, true, false, not, ◌&&◌, ◌||◌, Option, none, some,
  List, [], ◌∷◌, ◌++◌, arith, ◌==◌, codes, if◌then◌else◌, length, all, Bool-cases, inl, inr,
}

-- Does a text begin with another?
unfoldable pub starts_with : (start text : List ℕ) → Bool
starts_with [] text = true
starts_with (c ∷ start) [] = false
starts_with (c ∷ start) (d ∷ text) = c == d && starts_with start text

-- Does a text occur in another?
unfoldable pub occurs : (part text : List ℕ) → Bool
unfolding starts_with
occurs part [] = starts_with part []
occurs part (c ∷ text) = starts_with part (c ∷ text) || occurs part text

-- `text.replace(old, new)` from the left, once `skip` characters of an occurrence are passed over.
unfoldable pub replace_from : (skip : ℕ) (old new : List ℕ) → List ℕ → List ℕ
unfolding starts_with
replace_from skip old new [] = []
replace_from (suc skip) old new (c ∷ text) = replace_from skip old new text
replace_from zero old new (c ∷ text) =
    let found = new ++ replace_from (length old - 1) old new text in
    let kept = c ∷ replace_from zero old new text in
    if starts_with old (c ∷ text) then found else kept

abbrev pub stars : List ℕ
stars = codes "***"

-- `make_url` finds the password of a URL, if it has one; none is an ArgumentError.
unfoldable pub redact :
    (make_url : String → Option (Option (List ℕ))) (text : List ℕ) (database_url : String) → List ℕ
unfolding replace_from
redact make_url text database_url = hidden (make_url database_url)
  where
    hidden : Option (Option (List ℕ)) → List ℕ
    hidden none = codes "the configured FORMS_DATABASE_URL is not a usable SQLAlchemy URL"
    hidden (some none) = text
    hidden (some (some [])) = text
    hidden (some (some (c ∷ password))) = replace_from zero (c ∷ password) stars text

abbrev pub is_star_free : List ℕ → Bool
is_star_free text = all (λ c. not (c == b'*')) text

-- A part without stars that begins the redacted text begins the text itself.
starts-replace_from :
    (old part text : List ℕ)
    → is_star_free part ≡ true
    → starts_with part (replace_from zero old stars text) ≡ true
    → starts_with part text ≡ true
unfolding starts_with replace_from
starts-replace_from old [] text free h = refl
starts-replace_from old (a ∷ part) [] free h = h
starts-replace_from old (a ∷ part) (c ∷ text) free h =
    elim (Bool-cases (starts_with old (c ∷ text))) [
      | inl found ↦ let begins = rw found at h in ground (arith, free, begins)
      | inr apart ↦
          let begins = rw apart at h in
          ground (arith, free, begins, starts-replace_from old part text)
    ]

-- A password without stars does not occur in what is left once it has been replaced.
occurs-replace_from :
    (skip c : ℕ) (password text : List ℕ)
    → is_star_free (c ∷ password) ≡ true
    → occurs (c ∷ password) (replace_from skip (c ∷ password) stars text) ≡ false
unfolding occurs replace_from starts_with
occurs-replace_from skip c password [] free = refl
occurs-replace_from (suc skip) c password (d ∷ text) free =
    occurs-replace_from skip c password text free
occurs-replace_from zero c password (d ∷ text) free =
    elim (Bool-cases (starts_with (c ∷ password) (d ∷ text))) [
      | inl found ↦ rw found (
          ground
            (arith, free, occurs-replace_from (length (c ∷ password) - 1) c password text free))
      | inr apart ↦ rw apart (
          ground (
            arith,
            free,
            apart,
            starts-replace_from (c ∷ password) (c ∷ password) (d ∷ text) free,
            occurs-replace_from zero c password text free,
          ))
    ]

-- The password of the database's URL, where it has no star, occurs nowhere in what is shown of a
-- driver's message, however often and in whatever overlaps the message repeats it.
pub redact_hides :
    (make_url : String → Option (Option (List ℕ))) (text : List ℕ) (database_url : String) (c : ℕ)
    (password : List ℕ)
    → make_url database_url ≡ some (some (c ∷ password))
    → is_star_free (c ∷ password) ≡ true
    → occurs (c ∷ password) (redact make_url text database_url) ≡ false
unfolding redact
redact_hides make_url text database_url c password url free =
    rw url (occurs-replace_from zero c password text free)

replace_from_unchanged :
    (old new text : List ℕ) → occurs old text ≡ false → replace_from zero old new text ≡ text
unfolding occurs replace_from
replace_from_unchanged old new [] h = refl
replace_from_unchanged old new (c ∷ text) h = ground (arith, h, replace_from_unchanged old new text)

-- A message in which the decoded password does not occur is shown as it is, also where it repeats
-- the password in the percent-encoding of the URL.
pub redact_unchanged :
    (make_url : String → Option (Option (List ℕ))) (text : List ℕ) (database_url : String) (c : ℕ)
    (password : List ℕ)
    → make_url database_url ≡ some (some (c ∷ password))
    → occurs (c ∷ password) text ≡ false
    → redact make_url text database_url ≡ text
unfolding redact
redact_unchanged make_url text database_url c password url h =
    rw url (replace_from_unchanged (c ∷ password) stars text h)
