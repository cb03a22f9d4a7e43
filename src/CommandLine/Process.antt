-- ===== src/CommandLine/Process.antt =====
-- A whole invocation of the command line: `main` and `_run` of hymical_forms/cli.py, after the
-- arguments have been parsed.
use forms.Prelude.{ℕ, String, Option, none, some, List}
use forms.Messages.{Message}
use forms.Exceptions.{
  Exception, Result, ok, err, schema_not_ready, integrity_error, no_result_found, operational_error,
}
use forms.Models.{Instant, Db}
use forms.Config.{Settings, retention_policy}
use forms.Schema.{verify_schema}
use forms.Security.Generation.{GeneratedKey}
use forms.CommandLine.{Arguments, dispatch, Report, exit_failed}
use forms.CommandLine.Redaction.{redact}

-- How an invocation ends: with what it printed, with one of the messages on the error stream, or
-- with an exception that it does not catch.
pub data Ending : Type 0 where
  finished : (code : ℕ) → Report → Ending
  no_settings : Ending
  no_schema : Message → Ending
  no_database : (shown : List ℕ) → Ending
  uncaught : Exception → Ending

unfoldable pub exit_code : Ending → Option ℕ
exit_code (finished code report) = some code
exit_code no_settings = some exit_failed
exit_code (no_schema message) = some exit_failed
exit_code (no_database shown) = some exit_failed
exit_code (uncaught e) = none

-- The revisions, the credential that a creation would mint, the number of batches of a sweep after
-- which the database fails, the instant, and the store as a sweep finds it: what an invocation
-- meets.
pub record Setting : Type 0 where
  pub current_head : Option String
  pub found : Option String
  pub generated : GeneratedKey
  pub outage : Option ℕ
  pub now : Instant
  pub later : Db

abbrev pub verified : Result (Unit {0}) → Result (ℕ × Report) × Db → Db → Result (ℕ × Report) × Db
verified (ok u) after db = after
verified (err e) after db = (err e, db)

unfoldable pub run : Arguments → Settings → Setting → Db → Result (ℕ × Report) × Db
unfolding verify_schema dispatch retention_policy
run arguments settings met db =
    verified (verify_schema met.current_head met.found)
      (dispatch arguments (retention_policy settings) met.generated met.outage met.now met.later db)
      db

-- `describe` is the text of a database error.
unfoldable pub caught :
    (describe : Exception → List ℕ) (make_url : String → Option (Option (List ℕ)))
    → Settings
    → Exception
    → Ending
unfolding redact
caught describe make_url settings (schema_not_ready message) = no_schema message
caught describe make_url settings integrity_error =
    no_database (redact make_url (describe integrity_error) settings.database_url)
caught describe make_url settings no_result_found =
    no_database (redact make_url (describe no_result_found) settings.database_url)
caught describe make_url settings operational_error =
    no_database (redact make_url (describe operational_error) settings.database_url)
caught describe make_url settings e = uncaught e

-- The settings are absent where they cannot be read.
unfoldable pub main :
    (describe : Exception → List ℕ) (make_url : String → Option (Option (List ℕ)))
    → Option Settings
    → Arguments
    → Setting
    → Db
    → Ending × Db
unfolding run caught
main describe make_url none arguments met db = (no_settings, db)
main describe make_url (some settings) arguments met db =
    let (answer, db') = run arguments settings met db in (ended answer, db')
  where
    ended : Result (ℕ × Report) → Ending
    ended (ok (code, report)) = finished code report
    ended (err e) = caught describe make_url settings e
