-- ===== src/Storage/RateLimits/Budgets.antt =====
-- What the counters count: `consume_rate_limit` and the sweep of hymical_forms/storage.py.
use forms.Prelude.{
  ℕ, ◌+◌, String, ◌≡◌, refl, Bool, true, not, ◌&&◌, List, [], ◌∷◌, arith, ltb, ◌==◌, str_eq, eq_iff,
  if◌then◌else◌, filter,
}
use forms.Models.{Instant, Limiter, RateLimitCounter, Db}
use forms.Storage.RateLimits.{
  limiter_eq, is_counter, upsert, consume_rate_limit, delete_expired_rate_limit_counters,
}

-- How much of a subject's budget a window has spent.
unfoldable pub spent : Limiter → String → Instant → List RateLimitCounter → ℕ
unfolding is_counter
spent limiter subject start [] = 0
spent limiter subject start (row ∷ rest) =
    if is_counter limiter subject start row then row.attempts else spent limiter subject start rest

abbrev same_budget : Limiter → String → Instant → Limiter → String → Instant → Bool
same_budget l s w l' s' w' = limiter_eq l l' && str_eq s s' && w == w'

spent-upsert :
    (l : Limiter) (s : String) (w : Instant) (l' : Limiter) (s' : String) (w' : Instant)
    (t : List RateLimitCounter)
    → spent l' s' w' (upsert l s w t).1
      ≡ (if same_budget l s w l' s' w' then spent l s w t + 1 else spent l' s' w' t)
unfolding spent upsert
spent-upsert l s w l' s' w' [] = ground (arith, eq_iff s s')
spent-upsert l s w l' s' w' (row ∷ t) =
    ground (
      arith,
      eq_iff s s',
      eq_iff row.subject s,
      eq_iff row.subject s',
      spent-upsert l s w l' s' w' t,
    )

used-upsert :
    (l : Limiter) (s : String) (w : Instant) (t : List RateLimitCounter)
    → (upsert l s w t).0 ≡ spent l s w t + 1
unfolding spent upsert
used-upsert l s w [] = omega arith
used-upsert l s w (row ∷ t) = ground (arith, used-upsert l s w t)

-- Spending one unit of a budget returns how much of it is now spent, adds one to that budget and
-- leaves every other budget as it was.
pub consume_rate_limit-spent :
    (l : Limiter) (s : String) (w : Instant) (db : Db) (l' : Limiter) (s' : String) (w' : Instant)
    → let (used, db') = consume_rate_limit l s w db in
      (used ≡ spent l s w db.counters + 1)
      × (spent l' s' w' db'.counters ≡ (
          if limiter_eq l l' && str_eq s s' && w == w'
          then spent l s w db.counters + 1
          else spent l' s' w' db.counters))
unfolding consume_rate_limit
consume_rate_limit-spent l s w db l' s' w' =
    (used-upsert l s w db.counters, spent-upsert l s w l' s' w' db.counters)

-- Equal keys name one budget.
pub budget_eq :
    (l : Limiter) (s : String) (w : Instant) (l' : Limiter) (s' : String) (w' : Instant)
    (t : List RateLimitCounter)
    → (limiter_eq l' l && str_eq s' s && w' == w) ≡ true
    → spent l' s' w' t ≡ spent l s w t
unfolding spent
budget_eq l s w l' s' w' [] h = refl
budget_eq l s w l' s' w' (row ∷ t) h = ground (arith, eq_iff s' s, budget_eq l s w l' s' w' t h)

spent-filter :
    (before : Instant) (l : Limiter) (s : String) (w : Instant) (t : List RateLimitCounter)
    → spent l s w (filter (λ row. not (ltb row.window_start before)) t)
      ≡ (if ltb w before then 0 else spent l s w t)
unfolding spent
spent-filter before l s w [] = ground arith
spent-filter before l s w (row ∷ t) = ground (arith, spent-filter before l s w t)

-- A sweep of the counters forgets the windows that start before its cutoff, and no other.
pub delete_expired_rate_limit_counters-spent :
    (before : Instant) (l : Limiter) (s : String) (w : Instant) (db : Db)
    → spent l s w (delete_expired_rate_limit_counters before db).1.counters
      ≡ (if ltb w before then 0 else spent l s w db.counters)
unfolding delete_expired_rate_limit_counters
delete_expired_rate_limit_counters-spent before l s w db = spent-filter before l s w db.counters
