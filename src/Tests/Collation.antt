-- ===== src/Tests/Collation.antt =====
-- The order of texts by their code points, the collation `C` of a database.
use forms.Prelude.{
  ℕ, String, ◌≡◌, refl, ap, ◌∙◌, Bool, true, false, ◌&&◌, ◌||◌, List, [], ◌∷◌, arith, ltb, ◌==◌,
  codes,
}
use Prim.Native.Char.{code}
use text.Mathlib.TextEquality.{Char-path}
use forms.Pages.Order.{IsOrder}

abbrev pub lexicographic : List ℕ → List ℕ → Bool
lexicographic [] [] = false
lexicographic [] (b ∷ bs) = true
lexicographic (a ∷ as_) [] = false
lexicographic (a ∷ as_) (b ∷ bs) = ltb a b || a == b && lexicographic as_ bs

abbrev pub by_code : String → String → Bool
by_code s t = lexicographic (codes s) (codes t)

irreflexive : (a : List ℕ) → lexicographic a a ≡ false
irreflexive [] = refl
irreflexive (x ∷ xs) = ground (arith, irreflexive xs)

transitive :
    (a b c : List ℕ)
    → lexicographic a b ≡ true
    → lexicographic b c ≡ true
    → lexicographic a c ≡ true
transitive [] [] c h k = cc
transitive [] (y ∷ ys) [] h k = cc
transitive [] (y ∷ ys) (z ∷ zs) h k = refl
transitive (x ∷ xs) [] c h k = cc
transitive (x ∷ xs) (y ∷ ys) [] h k = cc
transitive (x ∷ xs) (y ∷ ys) (z ∷ zs) h k = ground (arith, transitive xs ys zs)

total : (a b : List ℕ) → lexicographic a b ≡ false → lexicographic b a ≡ false → a ≡ b
total [] [] h k = refl
total [] (y ∷ ys) h k = cc
total (x ∷ xs) [] h k = cc
total (x ∷ xs) (y ∷ ys) h k = ground (arith, total xs ys)

codes_equal : (s t : String) → codes s ≡ codes t → s ≡ t
codes_equal String.[] String.[] h = refl
codes_equal String.[] (String.◌∷◌ d t) h = cc
codes_equal (String.◌∷◌ c s) String.[] h = cc
codes_equal (String.◌∷◌ c s) (String.◌∷◌ d t) h =
    let heads : code c ≡ code d = cc in
    let tails : codes s ≡ codes t = cc in
    ap (λ x. String.◌∷◌ x s) (Char-path c d heads)
    ∙ ap (λ x. String.◌∷◌ d x) (codes_equal s t tails)

pub by_code-IsOrder : IsOrder by_code
by_code-IsOrder = record {
  irreflexive = λ a. irreflexive (codes a);
  transitive = λ a b c. transitive (codes a) (codes b) (codes c);
  total = λ a b h k. codes_equal a b (total (codes a) (codes b) h k);
}
