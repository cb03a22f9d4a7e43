-- ===== src/Worker/Process.antt =====
-- The worker as it is configured and started: `run_worker` of hymical_forms/worker.py, with the
-- values that it takes from hymical_forms/config.py and the check of hymical_forms/schema.py.
use forms.Prelude.{String, Bool, Option, List, All, inl, inr}
use forms.Exceptions.{◌>>◌, Result, ok, committed, Result-cases}
use forms.Models.{Endpoint, Db}
use forms.Config
use forms.Config.{Settings, retry_policy, attempt_deadline_seconds}
use forms.Schema.{verify_schema}
use forms.Consistency.{IsConsistent}
use forms.System.{Reach, Reach-trans, here, new_db}
use forms.System.Histories.{Reach-IsConsistent}
use forms.System.Allowance.{AllWithin, Reach-AllWithin}
use forms.Worker.{Tick, run_worker}
use forms.Worker.Ticks.{IsShared, run_worker-Reach}

-- A process that finds another revision raises before its first tick; otherwise it returns which
-- ticks were followed by a wait, with the database that they leave.
unfoldable pub run_process :
    (current_head found : Option String) → Settings → List Tick → Db → Result (List Bool × Db)
unfolding verify_schema run_worker retry_policy attempt_deadline_seconds
run_process current_head found settings ticks db = do
  verify_schema current_head found
  ok (
      run_worker settings.worker_lease_seconds settings.worker_batch_size
        (attempt_deadline_seconds settings) (retry_policy settings) ticks db)

module _ (settings : Settings) (valid : Config.IsValid settings) where
  run_process-Reach :
      (current_head found : Option String) (ticks : List Tick) (db : Db)
      → All (IsShared (retry_policy settings)) ticks
      → Reach
          (retry_policy settings)
          db
          (committed db (run_process current_head found settings ticks db))
  unfolding run_process
  run_process-Reach current_head found ticks db shared =
      elim (Result-cases (verify_schema current_head found)) [
        | inr (e, fails) ↦ rw fails here
        | inl (_, passes) ↦ rw passes (
            run_worker-Reach settings.worker_lease_seconds settings.worker_batch_size
              (attempt_deadline_seconds settings) (retry_policy settings) ticks db valid.lease
              shared)
      ]

  -- A worker that runs under valid settings, among other processes of the system with the same
  -- retry settings, on a database that began with endpoints only, leaves it consistent, and with no
  -- delivery that has used more attempts than its allowance: whether or not it starts, whatever the
  -- destinations answer, and at whatever tick it is stopped.
  pub run_process-IsSafe :
      (current_head found : Option String) (ticks : List Tick) (endpoints : List Endpoint) (db : Db)
      → Reach (retry_policy settings) (new_db endpoints) db
      → All (IsShared (retry_policy settings)) ticks
      → let after = committed db (run_process current_head found settings ticks db) in
        IsConsistent after × AllWithin (retry_policy settings) after
  run_process-IsSafe current_head found ticks endpoints db history shared =
      let policy = retry_policy settings in
      let after = committed db (run_process current_head found settings ticks db) in
      let whole : Reach policy (new_db endpoints) after =
        Reach-trans policy (new_db endpoints) db after history
          (run_process-Reach current_head found ticks db shared) in
      (
        Reach-IsConsistent policy endpoints after whole,
        Reach-AllWithin policy (unfold retry_policy in valid.max_attempts) endpoints after whole,
      )
