-- ===== src/Pages.antt =====
-- Keyset pagination: `_page_after` of hymical_forms/storage.py, the ORDER BY and LIMIT of the
-- listings that use it, and `next_cursor` of hymical_forms/api/pagination.py.
-- `before` is the order of the database on texts, its collation.
pub mod Order
pub mod Walks
use forms.Prelude.{
  ℕ, zero, suc, String, Bool, true, false, ◌&&◌, ◌||◌, Option, none, some, List, [], ◌∷◌, ◌++◌, ltb,
  ◌==◌, if◌then◌else◌, length, take, filter,
}
use forms.Exceptions.{Result, ok, err, unknown_cursor, ◌>>=◌}
use forms.Models.{Instant}
use forms.Table.{find}

module _ {ℓ} {A : Type ℓ} (before : String → String → Bool) (key : A → String)
    (at : A → Instant) where
  -- `(a.at, a.id) < (b.at, b.id)`: `a` follows `b` where the newest comes first.
  unfoldable pub follows : A → A → Bool
  follows a b = ltb (at a) (at b) || at a == at b && before (key a) (key b)

  unfoldable pub insert_newest : A → List A → List A
  insert_newest x [] = x ∷ []
  insert_newest x (y ∷ ys) =
      let rest = insert_newest x ys in if follows y x then x ∷ y ∷ ys else y ∷ rest

  -- ORDER BY at DESC, id DESC
  unfoldable pub newest_first : List A → List A
  newest_first [] = []
  newest_first (x ∷ xs) = insert_newest x (newest_first xs)

  -- The condition that an anchor, the row of the cursor, gives.
  unfoldable pub anchored : String → Option A → Result (A → Bool)
  anchored cursor none = err (unknown_cursor cursor)
  anchored cursor (some anchor) = ok (λ row. follows row anchor)

  -- No cursor asks for the first page.
  unfoldable pub page_after : List A → Option String → Result (A → Bool)
  unfolding anchored
  page_after table none = ok (λ row. true)
  page_after table (some cursor) = anchored cursor (find key cursor table)

  -- SELECT ... WHERE p AND (follows the cursor) ORDER BY at DESC, id DESC LIMIT limit
  unfoldable pub page : (A → Bool) → ℕ → Option String → List A → Result (List A)
  unfolding page_after newest_first
  page p limit after table = do
    condition ← page_after table after
    ok (take limit (newest_first (filter (λ row. p row && condition row) table)))

-- `page[-1]`, of a page that is not empty.
unfoldable pub last_of : List String → Option String
last_of [] = none
last_of (id ∷ []) = some id
last_of (id ∷ jd ∷ rest) = last_of (jd ∷ rest)

unfoldable pub next_cursor : List String → ℕ → Option String
unfolding last_of
next_cursor ids limit = if length ids == limit then last_of ids else none
