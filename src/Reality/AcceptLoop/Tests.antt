-- ===== src/Reality/AcceptLoop/Tests.antt =====
-- Four failures, of which the third is logged with one suppressed, and the theorem at them.
use leshiy.Prelude.{ℕ, ◌+◌, ◌*◌, ◌≤◌, ◌≡◌, refl, arith, List, [], ◌∷◌}
use leshiy.Reality.AcceptLoop.{new, record_failure}
use leshiy.Reality.AcceptLoop.Throttle.{run, run-new}

abbrev later : List ℕ
later = 1005 ∷ 31000 ∷ 31500 ∷ []

logged : (run new (1000 ∷ later)).1 ≡ record { lines = 2; told = 1 }
unfolding run new record_failure
logged = refl

run-new_example :
    ((run new (1000 ∷ later)).1.lines
        + (run new (1000 ∷ later)).1.told
        + (run new (1000 ∷ later)).0.suppressed
      ≡ 4)
    × ((run new (1000 ∷ later)).1.lines * 30000 + 1000 ≤ 31500 + 30000)
run-new_example = run-new 1000 later (omega arith) (omega arith, (omega arith, (omega arith, tt)))
