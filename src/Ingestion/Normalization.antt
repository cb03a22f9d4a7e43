-- ===== src/Ingestion/Normalization.antt =====
-- The normalization of form pairs: `build_submission` of hymical_forms/ingestion.py.
use forms.Prelude.{
  ℕ, ◌+◌, ◌≤◌, ◌<◌, String, ◌≡◌, refl, sym, ap, subst, ◌∙◌, Bool, true, false, List, [], ◌∷◌, ◌++◌,
  arith, ltb, str_eq, length, All, Bool-cases, inl, inr,
}
use mathlib.Core.List.{append_assoc, append-nil}
use forms.Exceptions.{Exception, ok, err, refuse, is_ok, Result-cases, ◌>>◌}
use forms.Models.{Instant, Fields}
use forms.Ingestion.{
  Submission, count_values, field_count, validate_field_name, validate_field_value, add_value,
  collect, build_submission, is_empty, too_many_fields, empty_submission,
}
use forms.Ingestion.Grouping.{
  values_of, submitted, IsAcceptable, count-add_value, values_of-add_value, name_accepted,
  value_accepted, accepts, round_ok,
}

-- What the loop over the pairs has done when it raised nothing.
pub record IsCollected (max_name max_value : ℕ) (items : List (String × String))
    (before after : Fields) : Type 0 where
  pub acceptable : All (IsAcceptable max_name max_value) items
  pub counted : count_values after ≡ count_values before + length items
  pub grouped :
      (name : String) → values_of name after ≡ values_of name before ++ submitted name items

collect-IsCollected :
    (max_name max_value : ℕ) (items : List (String × String)) (before after : Fields)
    → collect max_name max_value items before ≡ ok after
    → IsCollected max_name max_value items before after
unfolding collect submitted
collect-IsCollected max_name max_value [] before after h =
    let same : before ≡ after = cc in
    record {
      acceptable = tt;
      counted = ap count_values (sym same) ∙ omega arith;
      grouped = λ name. ap (values_of name) (sym same) ∙ sym (append-nil (values_of name before));
    }
collect-IsCollected max_name max_value ((name, value) ∷ rest) before after h =
    let (named, valued, on) =
      round_ok (validate_field_name name max_name) (validate_field_value name value max_value)
        (collect max_name max_value rest (add_value name value before)) h in
    let ih = collect-IsCollected max_name max_value rest (add_value name value before) after on in
    let (some_name, fits, clean) = name_accepted name max_name named in
    let (value_fits, value_clean) = value_accepted name value max_value valued in
    record {
      acceptable = (
        record {
          named = some_name;
          name_fits = fits;
          name_clean = clean;
          value_fits = value_fits;
          value_clean = value_clean;
        },
        ih.acceptable,
      );
      counted = omega (arith, ih.counted, count-add_value name value before);
      grouped = λ other. elim (Bool-cases (str_eq name other)) [
        | inl here ↦
            ih.grouped other
            ∙ rw (values_of-add_value name value other before, here)
                (append_assoc (values_of other before) (value ∷ []) (submitted other rest))
        | inr apart ↦
            ih.grouped other ∙ rw (values_of-add_value name value other before, apart) refl
      ];
    }

collect_total :
    (max_name max_value : ℕ) (items : List (String × String)) (before : Fields)
    → All (IsAcceptable max_name max_value) items
    → is_ok (collect max_name max_value items before) ≡ true
unfolding collect
collect_total max_name max_value [] before h = refl
collect_total max_name max_value ((name, value) ∷ rest) before h =
    let (named, valued) = accepts max_name max_value (name, value) h.0 in
    rw (named, valued) (collect_total max_name max_value rest (add_value name value before) h.1)

add_value-is_empty :
    (name value : String) (fields : Fields) → is_empty (add_value name value fields) ≡ false
unfolding add_value
add_value-is_empty name value [] = refl
add_value-is_empty name value ((n, values) ∷ rest) = ground arith

collect_full :
    (max_name max_value : ℕ) (items : List (String × String)) (before after : Fields)
    → is_empty before ≡ false
    → collect max_name max_value items before ≡ ok after
    → is_empty after ≡ false
unfolding collect
collect_full max_name max_value [] before after full h =
    let same : before ≡ after = cc in subst (λ f. is_empty f ≡ false) same full
collect_full max_name max_value ((name, value) ∷ rest) before after full h =
    let (_, _, on) =
      round_ok (validate_field_name name max_name) (validate_field_value name value max_value)
        (collect max_name max_value rest (add_value name value before)) h in
    collect_full max_name max_value rest (add_value name value before) after
      (add_value-is_empty name value before) on

-- Some pairs give some field.
collected_full :
    (max_name max_value : ℕ) (items : List (String × String)) (after : Fields)
    → 0 < length items
    → collect max_name max_value items [] ≡ ok after
    → is_empty after ≡ false
unfolding collect
collected_full max_name max_value [] after pos h = absurd (omega arith)
collected_full max_name max_value ((name, value) ∷ rest) after pos h =
    let (_, _, on) =
      round_ok (validate_field_name name max_name) (validate_field_value name value max_value)
        (collect max_name max_value rest (add_value name value [])) h in
    collect_full max_name max_value rest (add_value name value []) after
      (add_value-is_empty name value []) on

collected_none :
    (max_name max_value : ℕ) (items : List (String × String)) (after : Fields)
    → collect max_name max_value items [] ≡ ok after
    → is_empty after ≡ false
    → 0 < length items
unfolding collect
collected_none max_name max_value [] after h full =
    let same : [] ≡ after = cc in cc (ap is_empty same, full)
collected_none max_name max_value (item ∷ rest) after h full = omega arith

never : (b : Bool) (d e : Exception) {s : Submission} → (do refuse b d; err e) ≡ ok s → true ≡ false
never true d e h = cc
never false d e h = cc

guards_passed :
    (b c : Bool) (d e : Exception) (t : Submission) {s : Submission}
    → (do refuse b d; refuse c e; ok t) ≡ ok s
    → (b ≡ false) × (c ≡ false) × (t ≡ s)
guards_passed false false d e t h = (refl, refl, cc)
guards_passed false true d e t h = cc
guards_passed true c d e t h = cc

module _ (endpoint_id : String) (items : List (String × String)) (max_fields max_name max_value : ℕ)
    (id : String) (received_at : Instant) where
  -- What an accepted submission says: at least one and at most `max_fields` pairs were sent, each
  -- acceptable; it is addressed to the endpoint; it carries as many values as there were pairs, and
  -- under each name the values that the pairs gave it, in their order.
  pub build_submission_sound :
      (s : Submission) (name : String)
      → build_submission endpoint_id items max_fields max_name max_value id received_at ≡ ok s
      → (0 < length items)
        × (length items ≤ max_fields)
        × All (IsAcceptable max_name max_value) items
        × (s.endpoint_id ≡ endpoint_id)
        × (field_count s ≡ length items)
        × (values_of name s.fields ≡ submitted name items)
  unfolding build_submission field_count count_values values_of
  build_submission_sound s name h = elim (Result-cases (collect max_name max_value items [])) [
    | inr (e, fails) ↦ cc (
        never (ltb max_fields (length items)) (too_many_fields max_fields (length items)) e
          (rw fails at h))
    | inl (fields, got) ↦
        let t : Submission = record {
          id = id;
          endpoint_id = endpoint_id;
          received_at = received_at;
          fields = fields;
        } in
        let (few, full, same) =
          guards_passed (ltb max_fields (length items)) (is_empty fields)
            (too_many_fields max_fields (length items)) empty_submission t (rw got at h) in
        let c = collect-IsCollected max_name max_value items [] fields got in
        (
          collected_none max_name max_value items fields got full,
          ground (arith, few),
          c.acceptable,
          ap (λ x. x.endpoint_id) (sym same),
          ap (λ x. count_values x.fields) (sym same) ∙ c.counted ∙ omega arith,
          ap (λ x. values_of name x.fields) (sym same) ∙ c.grouped name,
        )
  ]

  -- Between one and `max_fields` acceptable pairs are accepted.
  pub build_submission_total :
      0 < length items
      → length items ≤ max_fields
      → All (IsAcceptable max_name max_value) items
      → is_ok (build_submission endpoint_id items max_fields max_name max_value id received_at)
        ≡ true
  unfolding build_submission
  build_submission_total some_item few h =
      let room : ltb max_fields (length items) ≡ false = ground (arith, few) in
      elim (Result-cases (collect max_name max_value items [])) [
        | inr (e, fails) ↦ cc (collect_total max_name max_value items [] h, fails)
        | inl (fields, got) ↦
            rw (room, got, collected_full max_name max_value items fields some_item got) refl
      ]
