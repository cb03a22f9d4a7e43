-- ===== src/Tests/Intake.antt =====
-- Requests as they come in: normalization, storing and its retries.
use forms.Prelude.{◌≤◌, ◌<◌, String, ◌≡◌, refl, true, false, some, List, [], ◌∷◌, length, All}
use forms.Exceptions.{ok}
use forms.Models.{Db}
use forms.Table.{find}
use forms.Ingestion.{
  Submission, build_submission, collect, add_value, validate_field_name, validate_field_value,
  field_count, is_control,
}
use forms.Ingestion.Normalization.{build_submission_sound}
use forms.Ingestion.Grouping.{IsAcceptable, values_of, submitted}
use forms.Storage.Submissions.{
  store_submission, find_by_idempotency_key, add_submission, insert_submission, insert_delivery,
  from_domain, new_delivery,
}
use forms.Tests.Samples.{target, key, posted, stored, waiting, empty}

abbrev pairs : List (String × String)
pairs = ("email", "a@example.com") ∷ ("tag", "x") ∷ ("tag", "y") ∷ []

abbrev accepted : Submission
accepted = record {
  id = "sub_1";
  endpoint_id = "contact";
  received_at = 1000;
  fields = ("email", "a@example.com" ∷ []) ∷ ("tag", "x" ∷ "y" ∷ []) ∷ [];
}

pairs_built : build_submission "contact" pairs 10 20 100 "sub_1" 1000 ≡ ok accepted
unfolding build_submission collect add_value validate_field_name validate_field_value is_control
pairs_built = refl

build_submission_sound_example :
    (0 < length pairs)
    × (length pairs ≤ 10)
    × All (IsAcceptable 20 100) pairs
    × (accepted.endpoint_id ≡ "contact")
    × (field_count accepted ≡ length pairs)
    × (values_of "tag" accepted.fields ≡ submitted "tag" pairs)
build_submission_sound_example =
    build_submission_sound "contact" pairs 10 20 100 "sub_1" 1000 accepted "tag" pairs_built

-- The database after a first request with the key.
abbrev kept : Db
kept = record empty { submissions = stored ∷ []; deliveries = waiting ∷ [] }

first_done :
    store_submission "whd_1" empty posted 1000 (some key) (some "f1") (some target) empty
    ≡ ok (record { submission = posted; replayed = false; delivery_queued = true }, kept)
unfolding store_submission find_by_idempotency_key add_submission insert_submission insert_delivery
    find from_domain new_delivery
first_done = refl
