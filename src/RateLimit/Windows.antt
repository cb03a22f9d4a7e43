-- ===== src/RateLimit/Windows.antt =====
-- The fixed windows of hymical_forms/ratelimit.py.
use forms.Prelude.{ℕ, ◌+◌, ◌-◌, ◌*◌, ◌/◌, ◌≤◌, ◌<◌, ◌≡◌, ◌↔◌, sym, ap, ◌∙◌, arith}
use native.Mathlib.Nat.{mul_assoc}
use forms.Models.{Instant}
use forms.RateLimit.{second, window_start, seconds_until_window_ends}

-- The number of the window that an instant falls in.
abbrev pub window_index : Instant → ℕ → ℕ
window_index now w = now / second / w

pub window_start-index : (now w : ℕ) → 0 < w → window_start now w ≡ window_index now w * w * second
unfolding window_start
window_start-index now w h = grind arith

floor_bounds : (e w : ℕ) → 0 < w → (e / w * w ≤ e) × (e < e / w * w + w)
floor_bounds e w h = grind arith

cancel : (p q w : ℕ) → 0 < w → p * w ≡ q * w → p ≡ q
cancel p q w h e = grind arith

-- An instant falls in the window that starts at its `window_start` and lasts `window_seconds`,
-- and the start is a multiple of the window's length from the epoch.
pub window_start_bounds :
    (now w : ℕ)
    → 0 < w
    → (window_start now w ≤ now)
      × (now < window_start now w + w * second)
      × (window_start now w ≡ window_index now w * (w * second))
window_start_bounds now w h =
    let (low, high) = floor_bounds (now / second) w h in
    let e = window_start-index now w h in
    (
      omega (arith, e, low),
      omega (arith, e, high),
      omega (arith, e, mul_assoc (window_index now w) w second),
    )

-- Two instants are counted in the same window exactly when they fall in the same multiple of the
-- window's length.
pub window_start_eq_iff :
    (a b w : ℕ)
    → 0 < w
    → (window_start a w ≡ window_start b w) ↔ (window_index a w ≡ window_index b w)
window_start_eq_iff a b w h = (
  (λ e.
      cancel (window_index a w) (window_index b w) w h
        (omega (arith, window_start-index a w h, window_start-index b w h))),
  (λ e. window_start-index a w h ∙ ap (λ q. q * w * second) e ∙ sym (window_start-index b w h)),
)

-- A client that is refused is told to wait at least one second and at most one window, and after
-- that many seconds the next window has begun; one second less, and it has not.
pub wait_exact :
    (now w : ℕ)
    → 0 < w
    → let wait = seconds_until_window_ends now (window_start now w) w in
      (1 ≤ wait)
      × (wait ≤ w)
      × (window_start now w + w * second ≤ now + wait * second)
      × (now + (wait - 1) * second < window_start now w + w * second)
unfolding seconds_until_window_ends
wait_exact now w h =
    let (low, high, _) = window_start_bounds now w h in
    (omega arith, omega arith, omega arith, omega arith)
