-- ===== src/Prelude/Text.antt =====
-- Texts: whole texts are compared as native strings, and walked as lists of code points.
use Prim.Native.Nat.{ℕ, ◌+◌}
use Prim.Native.Char.{code}
use Prim.Native.String.{String}
use mathlib.Core.Bool.{Bool, true, false, not, ◌&&◌, ◌||◌}
use mathlib.Core.Option.{Option, none, some}
use mathlib.Core.List.{List, [], ◌∷◌}
use forms.Prelude.Tests.{leb, ◌==◌, if◌then◌else◌}
pub use text.Mathlib.Text.{◌==◌ as str_eq}
pub use text.Mathlib.TextEquality.{eq_iff}
pub use text.Mathlib.TextPositions.{eq_refl}

abbrev pub codes : String → List ℕ
codes String.[] = []
codes (String.◌∷◌ c s) = code c ∷ codes s

-- SQL `column = value`: NULL is equal to nothing.
abbrev pub holds : Option String → String → Bool
holds none v = false
holds (some c) v = str_eq c v

-- Python's `a == b` on two values that may be None.
abbrev pub opt_eq : Option String → Option String → Bool
opt_eq none none = true
opt_eq (some a) (some b) = str_eq a b
opt_eq _ _ = false

-- `x in texts`
abbrev pub elem : String → List String → Bool
elem x [] = false
elem x (y ∷ ys) = str_eq y x || elem x ys

-- `str.lower` of a code point up to 255
unfoldable pub lower : ℕ → ℕ
lower c =
    if leb b'A' c && leb c b'Z' || leb 0xc0 c && leb c 0xde && not (c == 0xd7) then c + 32 else c

unfoldable pub lower_all : List ℕ → List ℕ
unfolding lower
lower_all [] = []
lower_all (c ∷ rest) = lower c ∷ lower_all rest

-- Equality of two texts as code points.
unfoldable pub same_text : List ℕ → List ℕ → Bool
same_text [] [] = true
same_text (c ∷ cs) (d ∷ ds) = c == d && same_text cs ds
same_text _ _ = false
