-- ===== src/Submit/Admissions.antt =====
-- How many attempts the limiters of a public submission let through: `_consume` of
-- hymical_forms/api/submissions.py.
use forms.Prelude.{
  ℕ, ◌+◌, ◌-◌, min, String, ◌≡◌, refl, Bool, true, not, ◌&&◌, List, [], ◌∷◌, arith, leb, ◌==◌,
  str_eq, eq_iff, if◌then◌else◌, Bool-cases, inl, inr,
}
use forms.Exceptions.{is_ok, refuse, Exception}
use forms.Models.{Instant, Limiter, ip, endpoint, Db}
use forms.RateLimit.{RateLimit, window_start, allowed}
use forms.Storage.RateLimits.{limiter_eq, consume_rate_limit}
use forms.Storage.RateLimits.Budgets.{spent, consume_rate_limit-spent, budget_eq}
use forms.Submit.{consume}

-- The limits of the two limiters, and attempts on any budgets, each at its own instant.
module _ (limits : Limiter → RateLimit) where
  abbrev window_of : Limiter → Instant → Instant
  window_of l now = window_start now (limits l).window_seconds

  abbrev is_on : Limiter → String → Instant → Limiter → String → Instant → Bool
  is_on l s w l' s' now = limiter_eq l' l && str_eq s' s && window_of l' now == w

  -- How many of the attempts on one budget are let through.
  unfoldable pub admitted : Limiter → String → Instant → List (Limiter × String × Instant) → Db → ℕ
  admitted l s w [] db = 0
  admitted l s w ((l', s', now) ∷ rest) db =
      let (answer, db') = consume l' s' (limits l') now db in
      let others = admitted l s w rest db' in
      if is_on l s w l' s' now && is_ok answer then others + 1 else others

  unfoldable pub attempts_on : Limiter → String → Instant → List (Limiter × String × Instant) → ℕ
  attempts_on l s w [] = 0
  attempts_on l s w ((l', s', now) ∷ rest) =
      let others = attempts_on l s w rest in if is_on l s w l' s' now then others + 1 else others

  limits_eq : (l l' : Limiter) → limiter_eq l' l ≡ true → limits l' ≡ limits l
  limits_eq ip ip h = refl
  limits_eq endpoint endpoint h = refl
  limits_eq ip endpoint h = cc
  limits_eq endpoint ip h = cc

  is_ok-refuse : (b : Bool) (e : Exception) → is_ok (refuse (not b) e) ≡ b
  is_ok-refuse b e = ground arith

  -- In any sequence of attempts, by any sources, on either limiter, at any instants and in any
  -- order, the limiter lets through as many of the attempts on one budget in one window as were
  -- made, up to what was left of its limit.
  pub admitted-eq-min :
      (l : Limiter) (s : String) (w : Instant) (attempts : List (Limiter × String × Instant))
      (db : Db)
      → admitted l s w attempts db
        ≡ min (attempts_on l s w attempts) ((limits l).requests - spent l s w db.counters)
  unfolding admitted attempts_on consume allowed
  admitted-eq-min l s w [] db = omega arith
  admitted-eq-min l s w ((l', s', now) ∷ rest) db =
      let w' = window_of l' now in
      let (used, others) = consume_rate_limit-spent l' s' w' db l s w in
      let rest_eq = admitted-eq-min l s w rest (consume_rate_limit l' s' w' db).1 in
      elim (Bool-cases (is_on l s w l' s' now)) [
        | inl mine ↦
            let same : limits l' ≡ limits l = limits_eq l l' (ground (arith, mine)) in
            let one = budget_eq l s w l' s' w' db.counters mine in
            elim (Bool-cases (leb (consume_rate_limit l' s' w' db).0 (limits l').requests)) [
              | inl room ↦
                  rw (mine, room) (ground (arith, used, others, one, same, rest_eq, mine, room))
              | inr full ↦
                  rw (mine, full) (ground (arith, used, others, one, same, rest_eq, mine, full))
            ]
        | inr other ↦ rw other (ground (arith, others, eq_iff s' s, rest_eq, other))
      ]
