-- ===== src/Tests/Processes.antt =====
-- Whole processes: a worker and the command line, from their settings on.
use forms.Prelude.{ℕ, String, ◌≡◌, refl, false, Option, some, List, [], ◌∷◌, codes}
use forms.Exceptions.{committed}
use forms.Config.{defaults, defaults-IsValid, retry_policy}
use forms.Consistency.{IsConsistent}
use forms.System.{here}
use forms.System.Allowance.{AllWithin}
use forms.Worker.Process.{run_process, run_process-IsSafe}
use forms.CommandLine.{Arguments, cleanup_command}
use forms.CommandLine.Redaction.{redact, occurs, redact_hides}
use forms.CommandLine.Process.{Setting}
use forms.Tests.Samples.{form, empty}
use forms.Tests.Workers.{tick}

run_process-IsSafe_example :
    let settings = defaults "sqlite://" in
    let after =
      committed empty (run_process (some "0005") (some "0005") settings (tick ∷ tick ∷ []) empty) in
    IsConsistent after × AllWithin (retry_policy settings) after
run_process-IsSafe_example =
    run_process-IsSafe (defaults "sqlite://") (defaults-IsValid "sqlite://") (some "0005")
      (some "0005") (tick ∷ tick ∷ []) (form ∷ []) empty here
      (
        record { during = λ i db. here; since = λ db. here },
        (record { during = λ i db. here; since = λ db. here }, tt),
      )

abbrev url : String
url = "postgresql://forms:secret@db/forms"

abbrev make_url : String → Option (Option (List ℕ))
make_url database_url = some (some (codes "secret"))

abbrev message : List ℕ
message = codes "no route to postgresql://forms:secret@db/forms (secretsecret)"

redact_hides_example : occurs (codes "secret") (redact make_url message url) ≡ false
redact_hides_example = redact_hides make_url message url 0x73 (codes "ecret") refl refl

redacted :
    redact make_url message url ≡ codes "no route to postgresql://forms:***@db/forms (******)"
unfolding redact
redacted = refl

abbrev met : Setting
met = record {
  current_head = some "0005";
  found = some "0004";
  generated = record { key = ""; id = ""; display_prefix = ""; digest = "" };
  outage = some 1;
  now = 1000;
  later = empty;
}

-- A cleanup during which the database fails after one batch.
abbrev cleanup : Arguments
cleanup = cleanup_command (some 30) false 500
