-- ===== src/Reality/ConnLimit/Tests.antt =====
-- A limiter for three connections, two per address, and the theorems at it.
use leshiy.Prelude.{ℕ, ◌≡◌, refl, some, List, [], ◌∷◌, ◌++◌}
use leshiy.Prelude.Assoc.{lookup, insert, erase}
use leshiy.Reality.ConnLimit.{
  zeroed, Event, State, connects, drops, new_limiter, bucket, key_of, try_acquire, drop_guard,
  release_count, remove_at, step, run,
}
use leshiy.Prelude.Net.{v4, v6}
use leshiy.Reality.ConnLimit.Invariant.{Inv, count, run-new_limiter, try_acquire_admits}

abbrev one_site : List ℕ → List ℕ
one_site interface = (32 ∷ 1 ∷ 13 ∷ 184 ∷ 0 ∷ 0 ∷ 0 ∷ 1 ∷ []) ++ interface

abbrev first : List ℕ
first = one_site (1 ∷ 0 ∷ 0 ∷ 0 ∷ 0 ∷ 0 ∷ 0 ∷ 1 ∷ [])

abbrev second : List ℕ
second = one_site (2 ∷ 0 ∷ 0 ∷ 0 ∷ 0 ∷ 0 ∷ 0 ∷ 2 ∷ [])

-- Two addresses of one /64, a third that is refused, a drop, a v4 address.
abbrev history : List Event
history =
    connects (v6 first)
    ∷ connects (v6 second)
    ∷ connects (v6 (one_site (3 ∷ 0 ∷ 0 ∷ 0 ∷ 0 ∷ 0 ∷ 0 ∷ 3 ∷ [])))
    ∷ connects (v4 (10 ∷ 0 ∷ 0 ∷ 1 ∷ []))
    ∷ drops 1
    ∷ []

abbrev after : State
after = run (record { limiter = new_limiter 3 2; held = [] }) history

after_total : (after.limiter.total ≡ 2)
unfolding new_limiter run step try_acquire drop_guard release_count remove_at bucket key_of zeroed
    lookup insert erase
after_total = refl

run-new_limiter_example : Inv after × (after.limiter.max_total ≡ 3) × (after.limiter.max_per_ip ≡ 2)
run-new_limiter_example = run-new_limiter 3 2 history

try_acquire_admits_example :
    (try_acquire after.limiter (v4 (10 ∷ 0 ∷ 0 ∷ 1 ∷ []))).1
    ≡ some (key_of (v4 (10 ∷ 0 ∷ 0 ∷ 1 ∷ [])))
unfolding count new_limiter run step try_acquire drop_guard release_count remove_at bucket key_of
    zeroed lookup insert erase
try_acquire_admits_example =
    try_acquire_admits after (v4 (10 ∷ 0 ∷ 0 ∷ 1 ∷ [])) run-new_limiter_example.0
