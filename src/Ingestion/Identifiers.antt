-- ===== src/Ingestion/Identifiers.antt =====
-- What an endpoint identifier looks like: `is_valid_endpoint_id` of hymical_forms/ingestion.py.
use forms.Prelude.{
  ℕ, String, ◌≡◌, refl, Bool, false, ◌&&◌, List, [], ◌∷◌, arith, leb, codes, length, all,
}
use forms.Ingestion.{
  is_alphanumeric, is_id_character, id_ending, matches_id_pattern, is_valid_endpoint_id,
}

unfoldable pub starts_alphanumeric : List ℕ → Bool
starts_alphanumeric [] = false
starts_alphanumeric (c ∷ rest) = is_alphanumeric c

unfoldable pub ends_alphanumeric : List ℕ → Bool
ends_alphanumeric [] = false
ends_alphanumeric (c ∷ []) = is_alphanumeric c
ends_alphanumeric (c ∷ d ∷ rest) = ends_alphanumeric (d ∷ rest)

-- An alphanumeric is an identifier character.
alphanumeric_all : (c : ℕ) → is_alphanumeric c ≡ (is_alphanumeric c && is_id_character c)
unfolding is_id_character
alphanumeric_all c = ground arith

id_ending-all :
    (c : ℕ) (rest : List ℕ)
    → id_ending (c ∷ rest) ≡ (all is_id_character (c ∷ rest) && ends_alphanumeric (c ∷ rest))
unfolding id_ending ends_alphanumeric
id_ending-all c [] = ground (arith, alphanumeric_all c)
id_ending-all c (d ∷ rest) = ground (arith, id_ending-all d rest)

-- The pattern accepts a text exactly when it starts and ends with a letter or digit and all of it
-- is letters, digits, hyphens and underscores.
pub matches_id_pattern-all :
    (text : List ℕ)
    → matches_id_pattern text
      ≡ (starts_alphanumeric text && all is_id_character text && ends_alphanumeric text)
unfolding matches_id_pattern starts_alphanumeric ends_alphanumeric
matches_id_pattern-all [] = refl
matches_id_pattern-all (c ∷ []) = ground (arith, alphanumeric_all c)
matches_id_pattern-all (c ∷ d ∷ rest) = ground (arith, alphanumeric_all c, id_ending-all d rest)

-- An endpoint identifier is valid exactly when it has 3 to 64 characters, starts and ends with a
-- lowercase letter or digit, and has only those, hyphens and underscores.
pub is_valid_endpoint_id-all :
    (value : String)
    → is_valid_endpoint_id value ≡ (
        leb 3 (length (codes value))
        && leb (length (codes value)) 64
        && (starts_alphanumeric (codes value)
            && all is_id_character (codes value)
            && ends_alphanumeric (codes value)))
unfolding is_valid_endpoint_id
is_valid_endpoint_id-all value = ground (arith, matches_id_pattern-all (codes value))
