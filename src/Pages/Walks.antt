-- ===== src/Pages/Walks.antt =====
-- A client that follows the cursors: hymical_forms/storage.py and hymical_forms/api/pagination.py.
use forms.Prelude.{
  ℕ, zero, suc, ◌-◌, ◌≤◌, ◌<◌, String, ◌≡◌, refl, sym, ap, subst, ◌∙◌, Bool, true, false, ◌&&◌,
  Option, none, some, List, [], ◌∷◌, ◌++◌, map, arith, leb, ◌==◌, str_eq, eq_iff, eq_refl,
  if◌then◌else◌, length, length-map, length-append, take, filter, All, Bool-cases, inl, inr,
}
use mathlib.Core.List.{append_assoc, append-nil}
use forms.Exceptions.{Result, ok, ◌>>=◌}
use forms.Table.{find}
use forms.Models.{Instant}
use forms.Pages.{follows, newest_first, page, page_after, anchored, next_cursor, last_of}
use forms.Pages.Order.{
  length-newest_first, IsOrder, Distinct, Sorted, newest_first-Sorted, filter-newest_first,
  filter-follows, All-filter, All-newest_first,
}

-- The rest of a walk, where there is a cursor to continue from.
abbrev onwards {ℓ} : {A : Type ℓ} → Option String → (String → Result (List A)) → Result (List A)
onwards none f = ok []
onwards (some cursor) f = f cursor

module _ {A : Type 0} where
  filter-and : (p c : A → Bool) (t : List A) → filter (λ r. p r && c r) t ≡ filter c (filter p t)
  filter-and p c [] = refl
  filter-and p c (x ∷ t) = ground (arith, filter-and p c t)

  filter-true : (t : List A) → filter (λ r. true) t ≡ t
  filter-true [] = refl
  filter-true (x ∷ t) = ap (λ ys. x ∷ ys) (filter-true t)

  take-short : (n : ℕ) (ys : List A) → length ys < n → take n ys ≡ ys
  take-short zero ys h = absurd (omega arith)
  take-short (suc n) [] h = refl
  take-short (suc n) (y ∷ ys) h = ap (λ t. y ∷ t) (take-short n ys (omega arith))

  -- A full page, the row it ends with, and what is left.
  record IsCut (n : ℕ) (ys : List A) : Type 0 where
    zs : List A
    b : A
    ws : List A
    whole : ys ≡ zs ++ b ∷ ws
    taken : take n ys ≡ zs ++ b ∷ []
    size : length (zs ++ b ∷ []) ≡ n

  cut : (n : ℕ) (ys : List A) → suc n ≤ length ys → IsCut (suc n) ys
  cut n [] h = absurd (omega arith)
  cut zero (y ∷ ys) h = record {
    zs = [];
    b = y;
    ws = ys;
    whole = refl;
    taken = refl;
    size = omega arith;
  }
  cut (suc n) (y ∷ ys) h =
      let c = cut n ys (omega arith) in
      record {
        zs = y ∷ c.zs;
        b = c.b;
        ws = c.ws;
        whole = ap (λ t. y ∷ t) c.whole;
        taken = ap (λ t. y ∷ t) c.taken;
        size = ap suc c.size;
      }

  All-middle : (P : A → Type 0) (xs : List A) (b : A) (ys : List A) → All P (xs ++ b ∷ ys) → P b
  All-middle P [] b ys h = h.0
  All-middle P (x ∷ xs) b ys h = All-middle P xs b ys h.1

  last_of-snoc :
      (key : A → String) (zs : List A) (b : A) → last_of (map key (zs ++ b ∷ [])) ≡ some (key b)
  unfolding last_of
  last_of-snoc key [] b = refl
  last_of-snoc key (z ∷ []) b = refl
  last_of-snoc key (z ∷ y ∷ zs) b = last_of-snoc key (y ∷ zs) b

module _ {A : Type 0} (before : String → String → Bool) (key : A → String) (at : A → Instant) where
  -- All the pages from a cursor on, as a client reads them. The fuel bounds their number.
  unfoldable pub walk :
      (A → Bool) → (limit : ℕ) → (fuel : ℕ) → Option String → List A → Result (List A)
  walk p limit zero after table = ok []
  walk p limit (suc fuel) after table = do
    rows ← page before key at p limit after table
    more ←
        onwards (next_cursor (map key rows) limit) (λ cursor. walk p limit fuel (some cursor) table)
    ok (rows ++ more)

  listing : (A → Bool) → List A → List A
  listing p table = newest_first before key at (filter p table)

  find-Distinct : (t : List A) → Distinct before key at t → All (λ r. find key (key r) t ≡ some r) t
  unfolding find
  find-Distinct [] d = tt
  find-Distinct (x ∷ t) d = (rw (eq_refl (key x)) refl, both t d.0 (find-Distinct t d.1))
    where
      both :
          (s : List A)
          → All (λ y. str_eq (key y) (key x) ≡ false) s
          → All (λ r. find key (key r) t ≡ some r) s
          → All (λ r. (if str_eq (key x) (key r) then some x else find key (key r) t) ≡ some r) s
      both [] h g = tt
      both (y ∷ s) h g =
          (ground (arith, h.0, g.0, eq_iff (key x) (key y), eq_iff (key y) (key x)), both s h.1 g.1)

  filter-Distinct :
      (order : IsOrder before) (p : A → Bool) (t : List A)
      → Distinct before key at t
      → Distinct before key at (filter p t)
  filter-Distinct order p [] d = tt
  filter-Distinct order p (x ∷ t) d = elim (Bool-cases (p x)) [
    | inl keep ↦ rw keep (
      All-filter before key at order (λ y. str_eq (key y) (key x) ≡ false) p t d.0,
      filter-Distinct order p t d.1,
    )
    | inr drop ↦ rw drop (filter-Distinct order p t d.1)
  ]

  module _ (order : IsOrder before) (p : A → Bool) (limit : ℕ) (table : List A)
      (distinct : Distinct before key at table) where
    page_first : page before key at p limit none table ≡ ok (take limit (listing p table))
    unfolding page page_after listing
    page_first =
        ap (λ t. ok (take limit (newest_first before key at t)))
          (filter-and p (λ r. true) table ∙ filter-true (filter p table))

    page_next :
        (xs : List A) (a : A) (ys : List A)
        → listing p table ≡ xs ++ a ∷ ys
        → find key (key a) table ≡ some a
        → page before key at p limit (some (key a)) table ≡ ok (take limit ys)
    unfolding page page_after anchored listing
    page_next xs a ys split found =
        let after = λ (r : A). follows before key at r a in
        let kept = filter-Distinct order p table distinct in
        let sorted = newest_first-Sorted before key at order (filter p table) kept in
        let rows : newest_first before key at (filter (λ r. p r && after r) table) ≡ ys =
          ap (newest_first before key at) (filter-and p after table)
          ∙ sym (filter-newest_first before key at order after (filter p table) kept)
          ∙ ap (filter after) split
          ∙ filter-follows before key at order xs a ys
              (subst (Sorted before key at) split sorted) in
        rw (found, rows) refl

    stored_rows : All (λ r. find key (key r) table ≡ some r) (listing p table)
    unfolding listing
    stored_rows =
        All-newest_first before key at order (λ r. find key (key r) table ≡ some r) (filter p table)
          (All-filter before key at order (λ r. find key (key r) table ≡ some r) p table
            (find-Distinct table distinct))

    walk_from :
        (fuel : ℕ) (after : Option String) (xs ys : List A)
        → 0 < limit
        → listing p table ≡ xs ++ ys
        → page before key at p limit after table ≡ ok (take limit ys)
        → length ys < fuel
        → walk p limit fuel after table ≡ ok ys
    unfolding walk next_cursor
    walk_from zero after xs ys pos split here enough = absurd (omega arith)
    walk_from (suc fuel) after xs ys pos split here enough =
        elim (Bool-cases (leb limit (length ys))) [
          | inr short ↦
              let all_taken : take limit ys ≡ ys = take-short limit ys (ground (arith, short)) in
              let last : (length (map key ys) == limit) ≡ false =
                ground (arith, length-map key ys, short) in
              rw (here, all_taken, last) (ap ok (append-nil ys))
          | inl full ↦
              let positive : limit ≡ suc (limit - 1) = omega arith in
              let c = cut (limit - 1) ys (ground (arith, full, positive)) in
              let split' : listing p table ≡ (xs ++ c.zs) ++ c.b ∷ c.ws =
                split ∙ ap (λ t. xs ++ t) c.whole ∙ sym (append_assoc xs c.zs (c.b ∷ c.ws)) in
              let found =
                All-middle (λ r. find key (key r) table ≡ some r) (xs ++ c.zs) c.b c.ws
                  (subst (All (λ r. find key (key r) table ≡ some r)) split' stored_rows) in
              let on =
                walk_from fuel (some (key c.b)) (xs ++ c.zs ++ c.b ∷ []) c.ws pos
                  (split' ∙ sym (append_assoc (xs ++ c.zs) (c.b ∷ []) c.ws))
                  (page_next (xs ++ c.zs) c.b c.ws split' found)
                  (omega (arith, ap length c.whole, length-append c.zs (c.b ∷ c.ws))) in
              let taken : take limit ys ≡ c.zs ++ c.b ∷ [] =
                ap (λ n. take n ys) positive ∙ c.taken in
              let many : (length (map key (c.zs ++ c.b ∷ [])) == limit) ≡ true =
                ground (arith, length-map key (c.zs ++ c.b ∷ []), c.size, positive) in
              rw (here, taken, many, last_of-snoc key c.zs c.b, on)
                (ap ok (append_assoc c.zs (c.b ∷ []) c.ws ∙ sym c.whole))
        ]

    -- Where the rows have distinct keys, the database's order on texts is strict and total, and the
    -- table does not change meanwhile, a client that reads pages of at least one row and follows
    -- the cursors until there is none reads every row that the filter matches exactly once, newest
    -- first, and no other. As many pages as there are rows, and one more, are enough.
    pub walk_complete :
        (fuel : ℕ)
        → 0 < limit
        → length (filter p table) < fuel
        → walk p limit fuel none table ≡ ok (newest_first before key at (filter p table))
    unfolding listing
    walk_complete fuel pos enough =
        walk_from fuel none [] (newest_first before key at (filter p table)) pos refl page_first
          (omega (arith, enough, length-newest_first before key at (filter p table)))
