-- ===== src/Core/Icmp/Fold.antt =====
-- Folding the carries: the loop ends, and the result is the sum modulo 65535.
use leshiy.Prelude.{ℕ, zero, suc, refl, ◌+◌, ◌%◌, ◌/◌, ◌^◌, ◌<◌, ◌≡◌, ◌⊎◌, arith}
use leshiy.Core.Icmp.{fold_loop, fold}

fold_loop_rounds : (s k : ℕ) → s < 2 ^ 16 → fold_loop k s ≡ s
unfolding fold_loop
fold_loop_rounds s zero h = refl
fold_loop_rounds s (suc k) h = ground (arith, h)

-- On a u32 two rounds suffice: with any number of rounds more the loop gives what it gives with two,
-- since its test fails by then. That is a 16-bit value, congruent to the sum modulo 65535, and zero
-- exactly for zero.
pub fold_loop_lem :
    (s k : ℕ)
    → s < 2 ^ 32
    → (fold_loop (suc (suc k)) s ≡ fold_loop 2 s)
      × (fold_loop 2 s < 2 ^ 16)
      × (fold_loop 2 s % 65535 ≡ s % 65535)
      × (((0 < fold_loop 2 s) × (0 < s)) ⊎ ((s ≡ 0) × (fold_loop 2 s ≡ 0)))
unfolding fold_loop
fold_loop_lem s k h =
    let first = s % 2 ^ 16 + s / 2 ^ 16 in
    let second = first % 2 ^ 16 + first / 2 ^ 16 in
    let settled = fold_loop_rounds second k (omega (arith, h)) in ground (arith, settled, h)

pub fold-lt : (s : ℕ) → fold s < 2 ^ 16
unfolding fold
fold-lt s = omega arith

-- Adding the checksum of a sum to that sum leaves one whose checksum is zero.
pub fold_complement : (s : ℕ) → s + 65535 < 2 ^ 32 → fold (s + fold s) ≡ 0
unfolding fold
fold_complement s h = omega (
  arith,
  fold_loop_lem s 1 (omega arith),
  fold_loop_lem (s + fold s) 1 (omega (arith, fold-lt s)),
)
