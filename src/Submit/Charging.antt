-- ===== src/Submit/Charging.antt =====
-- What the charges of a public submission change and raise: `_consume`, `_address_subject` and
-- `_sweep_old_windows` of hymical_forms/api/submissions.py.
use forms.Prelude.{ℕ, String, ◌≡◌, refl, ap, ◌∙◌, Bool, true, false, if◌then◌else◌, inl, inr}
use forms.Exceptions.{Exception, Result, ok, err, is_ok, Result-cases, rate_limit_exceeded}
use forms.Exceptions.Raises.{Raises, returns, raises, refuse-Raises}
use forms.Models.{Instant, Limiter, ip, endpoint, Db}
use forms.Config.{Settings, ip_rate_limit, endpoint_rate_limit}
use forms.RateLimit.{RateLimit}
use forms.Storage.RateLimits.{consume_rate_limit, delete_expired_rate_limit_counters}
use forms.Submit.{
  Library, Request, address_subject, consume, sweep_old_windows, charge_address, charge_endpoint,
  sweep_cutoff, swept_before, and_then,
}

-- Two databases that differ in the counters only.
abbrev pub SameRecords : Db → Db → Type 0
SameRecords db db' = record db' { counters = db.counters } ≡ db

pub SameRecords-trans : (a b c : Db) → SameRecords a b → SameRecords b c → SameRecords a c
SameRecords-trans a b c first second =
    let reset : Db → Db = λ d. record d { counters = a.counters } in ap reset second ∙ first

consume-SameRecords :
    (limiter : Limiter) (s : String) (limit : RateLimit) (now : Instant) (db : Db)
    → SameRecords db (consume limiter s limit now db).1
unfolding consume consume_rate_limit
consume-SameRecords limiter s limit now db = refl

swept-SameRecords :
    (sweeps : Bool) (settings : Settings) (now : Instant) (db : Db)
    → SameRecords db (sweep_old_windows sweeps settings now db).1
unfolding sweep_old_windows delete_expired_rate_limit_counters
swept-SameRecords false settings now db = refl
swept-SameRecords true settings now db = go (sweep_cutoff settings now)
  where
    go : (before : Result Instant) → SameRecords db (swept_before before db).1
    go (ok before) = refl
    go (err e) = refl

after-SameRecords :
    (db : Db) (c : Result (Unit {0}) × Db) (g : Db → Result (Unit {0}) × Db)
    → SameRecords db c.1
    → ((d : Db) → SameRecords d (g d).1)
    → SameRecords db (and_then c g).1
after-SameRecords db (ok u, db1) g same k = SameRecords-trans db db1 (g db1).1 same (k db1)
after-SameRecords db (err e, db1) g same k = same

-- A charge that a setting may turn off.
charged-SameRecords :
    (on : Bool) (db : Db) (c : Result (Unit {0}) × Db)
    → SameRecords db c.1
    → SameRecords db (if on then c else (ok tt, db)).1
charged-SameRecords true db c same = same
charged-SameRecords false db c same = refl

pub charge_address-SameRecords :
    (lib : Library) (settings : Settings) (request : Request) (now : Instant) (db : Db)
    → SameRecords db (charge_address lib settings request now db).1
unfolding charge_address
charge_address-SameRecords lib settings request now db =
    charged-SameRecords settings.rate_limit_enabled db _ (
      consume-SameRecords ip (address_subject lib request settings) (ip_rate_limit settings) now db)

pub charge_endpoint-SameRecords :
    (sweeps : Bool) (settings : Settings) (endpoint_id : String) (now : Instant) (db : Db)
    → SameRecords db (charge_endpoint sweeps settings endpoint_id now db).1
unfolding charge_endpoint
charge_endpoint-SameRecords sweeps settings endpoint_id now db =
    charged-SameRecords settings.rate_limit_enabled db _ (
      after-SameRecords db (consume endpoint endpoint_id (endpoint_rate_limit settings) now db) _
        (consume-SameRecords endpoint endpoint_id (endpoint_rate_limit settings) now db)
        (swept-SameRecords sweeps settings now))

module _ (p : Exception → Bool)
    (limited : (scope : String) (limit window wait : ℕ)
      → p (rate_limit_exceeded scope limit window wait) ≡ true) where
  consume-Raises :
      (limiter : Limiter) (s : String) (limit : RateLimit) (now : Instant) (db : Db)
      → Raises p (consume limiter s limit now db).0
  unfolding consume
  consume-Raises limiter s limit now db = refuse-Raises p _ _ (limited _ _ _ _)

  swept-Raises :
      (sweeps : Bool) (settings : Settings) (now : Instant) (c : Result (Unit {0}) × Db)
      → is_ok (sweep_cutoff settings now) ≡ true
      → Raises p c.0
      → Raises p (and_then c (sweep_old_windows sweeps settings now)).0
  unfolding sweep_old_windows
  swept-Raises true settings now (ok a, db) within h =
      elim (Result-cases (sweep_cutoff settings now)) [
        | inl (before, e) ↦ rw e (returns tt)
        | inr (e, fails) ↦ cc (rw fails at within)
      ]
  swept-Raises false settings now (ok a, db) within h = returns tt
  swept-Raises sweeps settings now (err e, db) within (raises _ h) = raises e h

  charged-Raises :
      (on : Bool) (db : Db) (c : Result (Unit {0}) × Db)
      → Raises p c.0
      → Raises p (if on then c else (ok tt, db)).0
  charged-Raises true db c h = h
  charged-Raises false db c h = returns tt

  -- A charge raises only that a budget is spent, where the cutoff of the sweep is in range.
  pub charge_address-Raises :
      (lib : Library) (settings : Settings) (request : Request) (now : Instant) (db : Db)
      → Raises p (charge_address lib settings request now db).0
  unfolding charge_address
  charge_address-Raises lib settings request now db =
      charged-Raises settings.rate_limit_enabled db _
        (consume-Raises ip (address_subject lib request settings) (ip_rate_limit settings) now db)

  pub charge_endpoint-Raises :
      (sweeps : Bool) (settings : Settings) (endpoint_id : String) (now : Instant) (db : Db)
      → is_ok (sweep_cutoff settings now) ≡ true
      → Raises p (charge_endpoint sweeps settings endpoint_id now db).0
  unfolding charge_endpoint
  charge_endpoint-Raises sweeps settings endpoint_id now db within =
      charged-Raises settings.rate_limit_enabled db _ (
        swept-Raises sweeps settings now
          (consume endpoint endpoint_id (endpoint_rate_limit settings) now db) within
          (consume-Raises endpoint endpoint_id (endpoint_rate_limit settings) now db))
