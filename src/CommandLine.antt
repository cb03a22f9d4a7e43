-- ===== src/CommandLine.antt =====
-- The operator commands of hymical_forms/cli.py, after the arguments have been parsed, the
-- database opened and its schema checked. What a command prints is a value.
pub mod Keys
pub mod Cleanup
pub mod Redaction
pub mod Process
pub mod Endings
use forms.Prelude.{
  ℕ, ◌+◌, String, Bool, true, false, not, Option, none, some, List, [], ◌∷◌, map, ltb, leb, ◌==◌,
  is_some, min, if◌then◌else◌,
}
use forms.Exceptions.{Result, ok, err, operational_error, ◌>>=◌}
use forms.Models.{Instant, ManagementApiKey, key_is_active, Db}
use forms.Retention.{RetentionPolicy, enabled, cutoff}
use forms.Storage.Keys.{create_management_key, get_management_key, revoke_management_key}
use forms.Storage.Sweep.{count_expired_submissions, delete_expired_submissions}
use forms.Security.Generation.{GeneratedKey}

-- One row of the listing; the moment of a key's revocation is its status.
pub record KeyLine : Type 0 where
  pub id : String
  pub name : String
  pub prefix : String
  pub created : Instant
  pub last_used : Option Instant
  pub is_active : Bool
  pub revoked : Option Instant

-- The age in days, the cutoff and the number that were eligible.
pub record Eligible : Type 0 where
  pub days : ℕ
  pub before : Instant
  pub count : ℕ

pub data Report : Type 0 where
  created : (id name key : String) → Report
  no_keys : Report
  listed : List KeyLine → Report
  no_such_key : String → Report
  already_revoked : (id name : String) → Instant → Report
  revoked : (id name : String) → Report
  no_retention : Report
  bad_batch_size : Report
  dry_run : Eligible → Report
  nothing_to_delete : Eligible → Report
  deleted : Eligible → (removed : ℕ) (again : Bool) → Report

abbrev pub exit_ok : ℕ
exit_ok = 0

abbrev pub exit_failed : ℕ
exit_failed = 1

-- ORDER BY created_at DESC; keys of one instant keep the table's order.
abbrev insert_latest : ManagementApiKey → List ManagementApiKey → List ManagementApiKey
insert_latest key [] = key ∷ []
insert_latest key (other ∷ rest) =
    let behind = insert_latest key rest in
    if leb other.created_at key.created_at then key ∷ other ∷ rest else other ∷ behind

unfoldable pub list_management_keys : Db → List ManagementApiKey
list_management_keys db = latest db.keys
  where
    latest : List ManagementApiKey → List ManagementApiKey
    latest [] = []
    latest (key ∷ rest) = insert_latest key (latest rest)

unfoldable pub key_line : ManagementApiKey → KeyLine
key_line key = record {
  id = key.id;
  name = key.name;
  prefix = key.display_prefix;
  created = key.created_at;
  last_used = key.last_used_at;
  is_active = key_is_active key;
  revoked = key.revoked_at;
}

unfoldable pub list_keys : Db → ℕ × Report
unfolding list_management_keys key_line
list_keys db = answer (list_management_keys db)
  where
    answer : List ManagementApiKey → ℕ × Report
    answer [] = (exit_ok, no_keys)
    answer (key ∷ rest) = (exit_ok, listed (map key_line (key ∷ rest)))

unfoldable pub create_key :
    GeneratedKey → (name : String) → Instant → Db → Result ((ℕ × Report) × Db)
create_key generated name now db = do
  (key, db') ←
      create_management_key generated.id name generated.display_prefix generated.digest now db
  ok ((exit_ok, created generated.id name generated.key), db')

abbrev pub revoked_at_of : Option ManagementApiKey → Option Instant
revoked_at_of none = none
revoked_at_of (some key) = key.revoked_at

unfoldable pub revocation_moment : String → Db → Option Instant
revocation_moment key_id db = revoked_at_of (get_management_key key_id db)

unfoldable pub revoke_report :
    (key_id : String) → Option Instant → Option ManagementApiKey → ℕ × Report
revoke_report key_id already none = (exit_failed, no_such_key key_id)
revoke_report key_id (some moment) (some key) = (exit_ok, already_revoked key.id key.name moment)
revoke_report key_id none (some key) = (exit_ok, revoked key.id key.name)

-- The key's row is read and then revoked in one session.
unfoldable pub revoke_key : String → Instant → Db → (ℕ × Report) × Db
unfolding revocation_moment revoke_report
revoke_key key_id now db =
    let (key, db') = revoke_management_key key_id now db in
    (revoke_report key_id (revocation_moment key_id db) key, db')

-- An age below 0 is not enabled either, and stands here as 0.
unfoldable pub cleanup_policy :
    (settings : RetentionPolicy) (older_than_days : Option ℕ) → Option RetentionPolicy
cleanup_policy settings none = if enabled settings then some settings else none
cleanup_policy settings (some days) =
    let chosen : RetentionPolicy = record { days = days } in
    if enabled chosen then some chosen else none

abbrev pub max_batches : ℕ
max_batches = 10000

-- The sweep, whose batches are committed one by one. `outage`: the number of them after which the
-- database fails, if it does; `later` is the store as the sweep finds it, after the count.
unfoldable pub swept :
    (eligible : Eligible) (batch_size : ℕ) (outage : Option ℕ) (later : Db)
    → Result (ℕ × Report) × Db
swept eligible batch_size none later =
    let (removed, db') = delete_expired_submissions eligible.before batch_size max_batches later in
    (ok (exit_ok, deleted eligible removed (ltb removed eligible.count)), db')
swept eligible batch_size (some batches) later = (
  err operational_error,
  (delete_expired_submissions eligible.before batch_size (min batches max_batches) later).1,
)

-- The command with a cutoff.
unfoldable pub sweep_before :
    (eligible : Eligible) (is_dry : Bool) (batch_size : ℕ) (outage : Option ℕ) (later : Db)
    → Db
    → Result (ℕ × Report) × Db
unfolding swept
sweep_before eligible is_dry batch_size outage later db =
    if is_dry
    then (ok (exit_ok, dry_run eligible), db)
    else if eligible.count == 0
    then (ok (exit_ok, nothing_to_delete eligible), db)
    else swept eligible batch_size outage later

-- A batch size below 1 is refused, and one below 0 stands here as 0.
unfoldable pub cleanup_submissions :
    (settings : RetentionPolicy) (older_than_days : Option ℕ) (is_dry : Bool) (batch_size : ℕ)
    (outage : Option ℕ) (now : Instant) (later : Db)
    → Db
    → Result (ℕ × Report) × Db
unfolding cleanup_policy sweep_before
cleanup_submissions settings older_than_days is_dry batch_size outage now later db =
    clean (cleanup_policy settings older_than_days)
  where
    counted : RetentionPolicy → Result Instant → Result (ℕ × Report) × Db
    counted policy (err e) = (err e, db)
    counted policy (ok before) =
        let eligible : Eligible = record {
          days = policy.days;
          before = before;
          count = count_expired_submissions before db;
        } in
        sweep_before eligible is_dry batch_size outage later db

    clean : Option RetentionPolicy → Result (ℕ × Report) × Db
    clean none = (ok (exit_failed, no_retention), db)
    clean (some policy) =
        if ltb batch_size 1
        then (ok (exit_failed, bad_batch_size), db)
        else counted policy (cutoff policy now)

-- The parsed command line.
pub data Arguments : Type 0 where
  create_key_command : (name : String) → Arguments
  list_keys_command : Arguments
  cleanup_command : (older_than_days : Option ℕ) (is_dry : Bool) (batch_size : ℕ) → Arguments
  revoke_key_command : (key_id : String) → Arguments

-- A command that makes one transaction.
abbrev pub at_once : Db → Result ((ℕ × Report) × Db) → Result (ℕ × Report) × Db
at_once db (ok (answer, db')) = (ok answer, db')
at_once db (err e) = (err e, db)

unfoldable pub dispatch :
    Arguments
    → (settings : RetentionPolicy) (generated : GeneratedKey) (outage : Option ℕ) (now : Instant)
      (later : Db)
    → Db
    → Result (ℕ × Report) × Db
unfolding create_key list_keys cleanup_submissions revoke_key
dispatch (create_key_command name) settings generated outage now later db =
    at_once db (create_key generated name now db)
dispatch list_keys_command settings generated outage now later db = (ok (list_keys db), db)
dispatch (cleanup_command age is_dry batch_size) settings generated outage now later db =
    cleanup_submissions settings age is_dry batch_size outage now later db
dispatch (revoke_key_command key_id) settings generated outage now later db =
    let (answer, db') = revoke_key key_id now db in (ok answer, db')
