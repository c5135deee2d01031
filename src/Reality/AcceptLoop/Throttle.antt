-- ===== src/Reality/AcceptLoop/Throttle.antt =====
-- A run of failures: how many lines it logs, and that no failure goes uncounted.
use leshiy.Prelude.{
  ℕ, ◌+◌, ◌-◌, ◌*◌, ◌^◌, ◌≤◌, ◌<◌, ◌≡◌, min, Bool-cases, Option, none, some, inl, inr, List, [],
  ◌∷◌, length, ltb, arith,
}
use leshiy.Reality.AcceptLoop.{AcceptBackoff, new, due, record_failure}

-- The lines logged, and the failures that they report as suppressed.
pub record Log : Type 0 where
  pub lines : ℕ
  pub told : ℕ

abbrev write : Option ℕ → Log → Log
write none log = log
write (some n) log = record { lines = log.lines + 1; told = log.told + n }

-- Failures at the given times, one after another.
unfoldable pub run : AcceptBackoff → List ℕ → AcceptBackoff × Log
run b [] = (b, record { lines = 0; told = 0 })
run b (now ∷ times) =
    let step = record_failure b now in
    let rest = run step.0 times in (rest.0, write step.1.log_suppressed rest.1)

-- Times that do not go back, and the last of them.
abbrev pub Ordered : ℕ → List ℕ → Type 0
Ordered t [] = Unit {0}
Ordered t (now ∷ times) = (t ≤ now) × Ordered now times

abbrev pub last_of : ℕ → List ℕ → ℕ
last_of t [] = t
last_of t (now ∷ times) = last_of now times

run-counts :
    (b : AcceptBackoff) (times : List ℕ)
    → b.suppressed + length times < 2 ^ 64
    → (run b times).1.lines + (run b times).1.told + (run b times).0.suppressed
      ≡ b.suppressed + length times
unfolding run record_failure
run-counts b [] h = omega arith
run-counts b (now ∷ times) h = elim (Bool-cases (due b.last_logged now)) [
  | inl now_due ↦
      let next : AcceptBackoff = record {
        consecutive = min (b.consecutive + 1) (2 ^ 32 - 1);
        last_logged = some now;
        suppressed = 0;
      } in
      let rest = run-counts next times (omega (arith, h)) in rw now_due (omega (arith, rest))
  | inr quiet ↦
      let next : AcceptBackoff = record {
        consecutive = min (b.consecutive + 1) (2 ^ 32 - 1);
        last_logged = b.last_logged;
        suppressed = min (b.suppressed + 1) (2 ^ 64 - 1);
      } in
      let rest = run-counts next times (omega (arith, h)) in rw quiet (omega (arith, rest, h))
]

-- After a line at time l, each further line costs the gap.
run-spaced :
    (consecutive suppressed l t : ℕ) (times : List ℕ)
    → l ≤ t
    → Ordered t times
    → (run
            (record { consecutive = consecutive; last_logged = some l; suppressed = suppressed })
            times).1.lines
          * 30000
        + l
      ≤ last_of t times
unfolding run record_failure
run-spaced consecutive suppressed l t [] h o = omega (arith, h)
run-spaced consecutive suppressed l t (now ∷ times) h o = elim (Bool-cases (ltb (now - l) 30000)) [
  | inl early ↦
      let rest =
        run-spaced (min (consecutive + 1) (2 ^ 32 - 1)) (min (suppressed + 1) (2 ^ 64 - 1)) l now
          times (omega (arith, h, o.0)) o.1 in
      rw early rest
  | inr late ↦
      let rest =
        run-spaced (min (consecutive + 1) (2 ^ 32 - 1)) 0 now now times (omega arith) o.1 in
      let gap : 30000 + l ≤ now = ground (arith, late) in rw late (omega (arith, rest, gap))
]

-- Over failures at times that do not go back, from a fresh state: each is either logged, or reported
-- by a later line as suppressed, or still counted; and after the first line there is at most one for
-- each 30 seconds that pass.
pub run-new :
    (first : ℕ) (times : List ℕ)
    → length times < 2 ^ 64 - 1
    → Ordered first times
    → ((run new (first ∷ times)).1.lines
          + (run new (first ∷ times)).1.told
          + (run new (first ∷ times)).0.suppressed
        ≡ length (first ∷ times))
      × ((run new (first ∷ times)).1.lines * 30000 + first ≤ last_of first times + 30000)
unfolding new run record_failure
run-new first times h o =
    let spaced = run-spaced (min (0 + 1) (2 ^ 32 - 1)) 0 first first times (omega arith) o in
    (omega (arith, run-counts new (first ∷ times) (omega (arith, h))), omega (arith, spaced))
