-- ===== src/Reality/Replay/Tests.antt =====
-- A guard with room for two keys, and the theorems at it.
use leshiy.Prelude.{ℕ, ◌≡◌, inl, refl, true, false, [], ◌∷◌, arith, ◌==◌}
use native.Mathlib.Decide.{ℕ_discrete}
use leshiy.Reality.Replay.{ReplayGuard, check_and_record, evict, set_remove}
use leshiy.Reality.Replay.Guard.{Inv, Agrees, check_and_record_replay}

abbrev small : ReplayGuard ℕ
small = record { ttl_secs = 10; max_entries = 2; order = (7, 100) ∷ []; present = λ k. 7 == k }

small-Inv : Inv ℕ_discrete small
unfolding ℕ_discrete
small-Inv = record {
  distinct = (refl, tt);
  agrees = λ k. ground arith;
  bounded = omega arith;
  capacity = omega arith;
}

-- An expired key is new again.
expired_run : (check_and_record ℕ_discrete small 7 111).1 ≡ false
unfolding check_and_record evict set_remove ℕ_discrete
expired_run = refl

check_and_record_replay_example :
    ((check_and_record ℕ_discrete small 7 110).1 ≡ true)
    × ((check_and_record ℕ_discrete small 7 110).0.order
        ≡ (evict ℕ_discrete 100 small.order small.present).0)
    × Agrees ℕ_discrete
        (check_and_record ℕ_discrete small 7 110).0.present
        (check_and_record ℕ_discrete small 7 110).0.order
check_and_record_replay_example =
    check_and_record_replay ℕ_discrete small 7 110 small-Inv (inl (refl, omega arith))
