-- ===== src/Storage/RateLimits.antt =====
-- The rate limit counters of hymical_forms/storage.py. The backend is one that the source
-- supports, PostgreSQL or SQLite; both run the upsert as one atomic statement.
pub mod Budgets
use forms.Prelude.{
  ℕ, ◌+◌, String, Bool, true, false, not, ◌&&◌, List, [], ◌∷◌, ltb, ◌==◌, str_eq, if◌then◌else◌,
  filter, length,
}
use forms.Models.{Instant, Limiter, ip, endpoint, RateLimitCounter, Db}

abbrev pub limiter_eq : Limiter → Limiter → Bool
limiter_eq ip ip = true
limiter_eq endpoint endpoint = true
limiter_eq _ _ = false

-- The primary key of a counter.
unfoldable pub is_counter : Limiter → String → Instant → RateLimitCounter → Bool
is_counter limiter subject start row =
    limiter_eq row.limiter limiter && str_eq row.subject subject && row.window_start == start

-- INSERT ... ON CONFLICT DO UPDATE ... RETURNING attempts.
unfoldable pub upsert :
    Limiter → String → Instant → List RateLimitCounter → ℕ × List RateLimitCounter
unfolding is_counter
upsert limiter subject start [] =
    (1, record { limiter = limiter; subject = subject; window_start = start; attempts = 1 } ∷ [])
upsert limiter subject start (row ∷ rest) =
    let (used, rest') = upsert limiter subject start rest in
    if is_counter limiter subject start row
    then (row.attempts + 1, record row { attempts = row.attempts + 1 } ∷ rest)
    else (used, row ∷ rest')

-- It commits, so the count stands whatever the request does next.
unfoldable pub consume_rate_limit : Limiter → String → Instant → Db → ℕ × Db
consume_rate_limit limiter subject start db =
    let (used, counters) = upsert limiter subject start db.counters in
    (used, record db { counters = counters })

unfoldable pub delete_expired_rate_limit_counters : Instant → Db → ℕ × Db
delete_expired_rate_limit_counters before db = (
  length (filter (λ row. ltb row.window_start before) db.counters),
  record db { counters = filter (λ row. not (ltb row.window_start before)) db.counters },
)
