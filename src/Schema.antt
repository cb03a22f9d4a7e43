-- ===== src/Schema.antt =====
-- hymical_forms/schema.py: the check that a database is at the revision that the code expects. The
-- head of the migration scripts and the revision that Alembic reads from the database are arguments.
use forms.Prelude.{◌≡◌, ◌↔◌, refl, arith, eq_iff, String, not, Option, none, some, [], ◌∷◌, str_eq}
use forms.Messages.{text, quoted}
use forms.Exceptions.{Result, ok, err, schema_not_ready, refuse, ◌>>=◌}

unfoldable pub head_revision : (current_head : Option String) → Result String
head_revision none = err (schema_not_ready (text "this build ships no migrations" ∷ []))
head_revision (some head) = ok head

-- The revision that was found, against the one that is expected.
unfoldable pub check_revision : (expected : String) → (found : Option String) → Result (Unit {0})
check_revision expected none = err (
    schema_not_ready
      (text "the database has no schema. Run 'alembic upgrade head' before starting." ∷ []))
check_revision expected (some found) = refuse (not (str_eq found expected)) (
    schema_not_ready (
      text "the database is at migration "
      ∷ quoted found
      ∷ text " but this build expects "
      ∷ quoted expected
      ∷ text ". Run 'alembic upgrade head' before starting."
      ∷ []))

unfoldable pub verify_schema : (current_head found : Option String) → Result (Unit {0})
unfolding head_revision check_revision
verify_schema current_head found = do
  expected ← head_revision current_head
  check_revision expected found

-- The check passes exactly when the build ships a revision and the database is at that one.
pub verify_schema_exact :
    (current_head found : Option String)
    → (verify_schema current_head found ≡ ok tt)
      ↔ ((revision : String) × (current_head ≡ some revision) × (found ≡ some revision))
unfolding verify_schema
verify_schema_exact none found = (λ h. cc, λ h. cc (h.1))
verify_schema_exact (some head) none = (λ h. cc, λ h. cc (h.2))
verify_schema_exact (some head) (some r) = (
  λ h. (head, refl, ground (arith, eq_iff r head, h)),
  λ h. ground (arith, eq_iff r head, h.1, h.2),
)
