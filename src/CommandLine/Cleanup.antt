-- ===== src/CommandLine/Cleanup.antt =====
-- What a cleanup does to the store: `_cleanup_submissions` of hymical_forms/cli.py.
use forms.Prelude.{
  ◌+◌, ℕ, ◌-◌, ◌<◌, ◌*◌, ◌≡◌, refl, Bool, true, false, not, ◌&&◌, Option, none, some, arith, ltb,
  ◌==◌, if◌then◌else◌, Bool-cases, inl, inr,
}
use forms.Exceptions.{ok, err, overflow_error}
use forms.Models.{Instant, before_epoch, Db}
use forms.Retention.{RetentionPolicy, enabled, cutoff, day}
use forms.Storage.Sweep.{count_expired_submissions, delete_expired_submissions}
use forms.Storage.Sweep.Progress.{delete_expired_submissions_complete}
use forms.CommandLine.{
  Report, Eligible, no_retention, bad_batch_size, cleanup_policy, sweep_before, cleanup_submissions,
  max_batches, swept,
}

-- The age that a run uses: the one given with the command, else the configured one.
abbrev pub chosen_days : RetentionPolicy → Option ℕ → ℕ
chosen_days settings none = settings.days
chosen_days settings (some days) = days

-- Is the sweep allowed to run at all?
abbrev pub is_allowed : RetentionPolicy → Option ℕ → (batch_size : ℕ) → Bool
is_allowed settings older_than_days batch_size =
    ltb 0 (chosen_days settings older_than_days) && not (ltb batch_size 1)

-- The cutoff of a run.
abbrev pub cutoff_of : RetentionPolicy → Option ℕ → Instant → Instant
cutoff_of settings older_than_days now = now - chosen_days settings older_than_days * day

policy_lem :
    (settings : RetentionPolicy) (age : Option ℕ)
    → cleanup_policy settings age ≡ (
        if ltb 0 (chosen_days settings age)
        then some (record { days = chosen_days settings age })
        else none)
unfolding cleanup_policy enabled
policy_lem settings none = refl
policy_lem settings (some days) = refl

cutoff_lem :
    (days : ℕ) (now : Instant)
    → ltb 0 days ≡ true
    → cutoff (record { days = days }) now ≡ (
        if ltb (now + before_epoch) (days * day) then err overflow_error else ok (now - days * day))
unfolding cutoff enabled
cutoff_lem days now on = rw on refl

-- What the command with a cutoff leaves.
abbrev pub Leaves : (before : Instant) (is_dry : Bool) (batch_size : ℕ) → Db → Db → Type 0
Leaves before is_dry batch_size db db' =
    (is_dry ≡ true → db' ≡ db)
    × (is_dry ≡ false
        → (delete_expired_submissions before batch_size max_batches db).0 < batch_size * max_batches
        → count_expired_submissions before db' ≡ 0)

sweep_before-Leaves :
    (before : Instant) (days : ℕ) (is_dry : Bool) (batch_size : ℕ) (db : Db)
    → 0 < batch_size
    → let eligible : Eligible = record {
      days = days;
      before = before;
      count = count_expired_submissions before db;
    } in
      let (answer, db') = sweep_before eligible is_dry batch_size none db db in
      (report : Report) × (answer ≡ ok (0, report)) × Leaves before is_dry batch_size db db'
unfolding sweep_before swept
sweep_before-Leaves before days true batch_size db pos = (_, refl, (λ dry. refl, λ wet. cc))
sweep_before-Leaves before days false batch_size db pos =
    elim (Bool-cases (count_expired_submissions before db == 0)) [
      | inl idle ↦ rw idle (_, refl, (λ dry. cc, λ wet below. ground (arith, idle)))
      | inr some_due ↦ rw some_due (
        _,
        refl,
        (
          λ dry. cc,
          λ wet. delete_expired_submissions_complete before batch_size max_batches db pos,
        ),
      )
    ]

-- Where the database does not fail and the cutoff lies in the year 1 or later, a cleanup fails, with
-- exit code 1 and the store as it was, exactly where no positive age is given or configured or the
-- batch size is below 1. Otherwise it succeeds: a dry run leaves the store as it was, and a run
-- that deletes fewer submissions than the ceiling of its batches leaves none that is eligible,
-- where nothing else changed the store meanwhile. Where an allowed cleanup would reach back past
-- the year 1, it raises an OverflowError and changes nothing.
pub cleanup_submissions_exact :
    (settings : RetentionPolicy) (age : Option ℕ) (is_dry : Bool) (batch_size : ℕ) (now : Instant)
    (db : Db)
    → let allowed = is_allowed settings age batch_size in
      let early = ltb (now + before_epoch) (chosen_days settings age * day) in
      let (answer, db') = cleanup_submissions settings age is_dry batch_size none now db db in
      (allowed ≡ false → (report : Report) × (answer ≡ ok (1, report)) × (db' ≡ db))
      × (allowed ≡ true → early ≡ true → (answer ≡ err overflow_error) × (db' ≡ db))
      × (allowed ≡ true
          → early ≡ false
          → (report : Report) × (answer ≡ ok (0, report))
            × Leaves (cutoff_of settings age now) is_dry batch_size db db')
unfolding cleanup_submissions
cleanup_submissions_exact settings age is_dry batch_size now db =
    let days = chosen_days settings age in
    elim (Bool-cases (ltb 0 days)) [
      | inr off ↦
          rw (policy_lem settings age, off)
            (λ refused. (no_retention, refl, refl), λ run far. cc, λ run near. cc)
      | inl on ↦ elim (Bool-cases (ltb batch_size 1)) [
        | inl small ↦
            rw (policy_lem settings age, on, small)
              (λ refused. (bad_batch_size, refl, refl), λ run far. cc, λ run near. cc)
        | inr enough ↦ elim (Bool-cases (ltb (now + before_epoch) (days * day))) [
          | inl early ↦
              rw (policy_lem settings age, on, enough, cutoff_lem days now on, early)
                (λ refused. cc, λ run far. (refl, refl), λ run near. cc)
          | inr near ↦
              let left =
                sweep_before-Leaves (now - days * day) days is_dry batch_size db
                  (ground (arith, enough)) in
              rw (policy_lem settings age, on, enough, cutoff_lem days now on, near)
                (λ refused. cc, λ run far. cc, λ run fine. left)
        ]
      ]
    ]
