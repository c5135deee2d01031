-- ===== src/Client/Supervisor/Backoff.antt =====
-- The backoff delay: how it grows, and where it stops.
use leshiy.Prelude.{ℕ, ◌*◌, ◌^◌, ◌≤◌, min, arith}
use native.Mathlib.Nat.{pow-le-pow_right}
use leshiy.Client.Supervisor.{backoff_delay, saturating_pow, max_duration}

saturating_pow_mono :
    (n m : ℕ) → n ≤ m → (1 ≤ saturating_pow n) × (saturating_pow n ≤ saturating_pow m)
saturating_pow_mono n m h =
    let one : 2 ^ 0 ≤ 2 ^ n = pow-le-pow_right (omega arith) {i = 0} (omega arith) in
    let up : 2 ^ n ≤ 2 ^ m = pow-le-pow_right (omega arith) h in omega arith

times_mono : (a x y : ℕ) → 1 ≤ x → x ≤ y → (a ≤ a * x) × (a * x ≤ a * y)
times_mono a x y p h = grind arith

-- The delay never exceeds the cap, never falls below the smaller of the base and the cap, and does
-- not shrink from one attempt to a later one, for any base and cap that are durations.
pub backoff_delay_bounds :
    (attempt later base max : ℕ)
    → base ≤ max_duration
    → max ≤ max_duration
    → attempt ≤ later
    → (backoff_delay attempt base max ≤ max)
      × (min base max ≤ backoff_delay attempt base max)
      × (backoff_delay attempt base max ≤ backoff_delay later base max)
unfolding backoff_delay
backoff_delay_bounds attempt later base max b m h =
    let (p, q) = saturating_pow_mono (min attempt 16) (min later 16) (omega arith) in
    let (r, s) =
      times_mono base (saturating_pow (min attempt 16)) (saturating_pow (min later 16)) p q in
    go (base * saturating_pow (min attempt 16)) (base * saturating_pow (min later 16)) r s
  where
    go :
        (x y : ℕ)
        → base ≤ x
        → x ≤ y
        → (min (min x max_duration) max ≤ max)
          × (min base max ≤ min (min x max_duration) max)
          × (min (min x max_duration) max ≤ min (min y max_duration) max)
    go x y r s = omega (arith, b)
