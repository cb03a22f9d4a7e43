-- ===== src/CommandLine/Endings.antt =====
-- How an invocation of the command line ends, and what it leaves when it fails: `main` of
-- hymical_forms/cli.py.
use forms.Prelude.{ℕ, ◌≡◌, ◌⊎◌}
use forms.Exceptions.{Result, ok, err}
use forms.Models.{Instant, Db}
use forms.Storage.Sweep.{delete_expired_submissions}
use forms.CommandLine.{Arguments, cleanup_command, Report}

-- What a failing command may leave: the database as it was, or as some batches of a sweep left it.
abbrev pub Left : Arguments → Db → Db → Db → Type 0
Left (cleanup_command age is_dry batch_size) later db db' =
    (db' ≡ db)
    ⊎ ((before : Instant) × (batches : ℕ) × (db'
          ≡ (delete_expired_submissions before batch_size batches later).1))
Left _ later db db' = db' ≡ db

-- A result of a command: it reports success, or it fails or raises over what it left.
abbrev Tidy : Arguments → Db → Db → Result (ℕ × Report) × Db → Type 0
Tidy arguments later db (ok (code, report), db') =
    (code ≡ 0) ⊎ ((code ≡ 1) × Left arguments later db db')
Tidy arguments later db (err e, db') = Left arguments later db db'
