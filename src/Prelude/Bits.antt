-- ===== src/Prelude/Bits.antt =====
-- Laws of `&` on machine words. The native operation stands for a recursion on binary digits whose
-- fuel is its first operand; here the fuel is dropped.
use Prim.Native.Nat.{ℕ, zero, suc, ◌≤◌, ◌<◌, ◌+◌, ◌*◌, ◌/◌, ◌%◌, ◌^◌}
use Prim.Native.Nat.{bit_and, bit_and-bitwise, digits, min}
use mathlib.Core.Path.{◌≡◌, refl, sym, ap, ◌∙◌}
use native.Mathlib.Decide.{dec_le}
use native.Mathlib.Omega.{arith}
use native.Mathlib.Nat.{pow-suc}

abbrev conjoin : ℕ → ℕ → ℕ → ℕ
conjoin = digits (λ _. 0) min

-- Beyond the first operand one more round adds nothing.
spare_round : (n a b : ℕ) → a ≤ n → conjoin (suc n) a b ≡ conjoin n a b
spare_round zero zero b room = refl
spare_round zero (suc a) b room = absurd (omega arith)
spare_round (suc n) zero b room = refl
spare_round (suc n) (suc a) b room =
    ap (λ (high : ℕ). high * 2 + min (suc a % 2) (b % 2))
      (spare_round n (suc a / 2) (b / 2) (omega arith))

zero-bit_and : (b : ℕ) → bit_and 0 b ≡ 0
zero-bit_and b = bit_and-bitwise 0 b

conjoin-bit_and : (n a b : ℕ) → a ≤ n → conjoin n a b ≡ bit_and a b
conjoin-bit_and zero zero b room = sym (zero-bit_and b)
conjoin-bit_and zero (suc a) b room = absurd (omega arith)
conjoin-bit_and (suc n) a b room = elim (dec_le a n) [
  | yes spare ↦ spare_round n a b spare ∙ conjoin-bit_and n a b spare
  | no tight ↦ rw (last tight, bit_and-bitwise)
]
  where
    last : ¬ (a ≤ n) → a ≡ suc n
    last tight = omega arith

-- The lowest digit, and the digits above it.
pub bit_and-digits : (x y : ℕ) → bit_and x y ≡ min (x % 2) (y % 2) + 2 * bit_and (x / 2) (y / 2)
bit_and-digits zero y = simp zero-bit_and (omega arith)
bit_and-digits (suc x) y =
    let upper = conjoin-bit_and x (suc x / 2) (y / 2) (omega arith) in
    omega (arith, bit_and-bitwise (suc x) y, upper)

bit_and_comm_below : (n a b : ℕ) → a ≤ n → b ≤ n → bit_and a b ≡ bit_and b a
bit_and_comm_below zero a b p q = rw (zero_of a p, zero_of b q)
  where
    zero_of : (m : ℕ) → m ≤ 0 → m ≡ 0
    zero_of m h = omega arith
bit_and_comm_below (suc n) a b p q = omega (
  arith,
  bit_and-digits a b,
  bit_and-digits b a,
  bit_and_comm_below n (a / 2) (b / 2) (omega arith) (omega arith),
)

pub bit_and_comm : (a b : ℕ) → bit_and a b ≡ bit_and b a
bit_and_comm a b = bit_and_comm_below (a + b) a b (omega arith) (omega arith)

bit_and-zero : (a : ℕ) → bit_and a 0 ≡ 0
bit_and-zero a = bit_and_comm a 0 ∙ zero-bit_and a

-- The binary digit at a position.
abbrev pub bit : ℕ → ℕ → ℕ
bit zero a = a % 2
bit (suc k) a = bit k (a / 2)

pub bit-lt : (k a : ℕ) → bit k a < 2
bit-lt zero a = omega arith
bit-lt (suc k) a = bit-lt k (a / 2)

pub bit-bit_and : (k a b : ℕ) → bit k (bit_and a b) ≡ min (bit k a) (bit k b)
bit-bit_and zero a b = omega (arith, bit_and-digits a b)
bit-bit_and (suc k) a b = ap (bit k) (half a b) ∙ bit-bit_and k (a / 2) (b / 2)
  where
    half : (x y : ℕ) → bit_and x y / 2 ≡ bit_and (x / 2) (y / 2)
    half x y = omega (arith, bit_and-digits x y)

-- A mask with one bit keeps that bit.
pub bit_and_pow : (k a : ℕ) → bit_and a (2 ^ k) ≡ bit k a * 2 ^ k
bit_and_pow zero a = omega (arith, bit_and-digits a 1, bit_and-zero (a / 2))
bit_and_pow (suc k) a = omega (
  arith,
  bit_and-digits a (2 ^ suc k),
  ap (bit_and (a / 2)) (half k),
  pow-suc 2 k,
  bit_and_pow k (a / 2),
  ap (λ (t : ℕ). bit k (a / 2) * t) (pow-suc 2 k),
)
  where
    half : (n : ℕ) → 2 ^ suc n / 2 ≡ 2 ^ n
    half n = omega (arith, pow-suc 2 n)

-- The two masks of a type byte.
pub top_bit : (b : ℕ) → b < 256 → bit_and b 0x80 ≡ b / 128 * 128
top_bit b h = omega (arith, bit_and_pow 7 b)

mask_1 : (b : ℕ) → bit_and b 0x1 ≡ b % 2
mask_1 b = omega (arith, bit_and-digits b 0x1, bit_and-zero (b / 2))

mask_2 : (b : ℕ) → bit_and b 0x3 ≡ b % 4
mask_2 b = omega (arith, bit_and-digits b 0x3, mask_1 (b / 2))

mask_3 : (b : ℕ) → bit_and b 0x7 ≡ b % 8
mask_3 b = omega (arith, bit_and-digits b 0x7, mask_2 (b / 2))

mask_4 : (b : ℕ) → bit_and b 0xf ≡ b % 16
mask_4 b = omega (arith, bit_and-digits b 0xf, mask_3 (b / 2))

mask_5 : (b : ℕ) → bit_and b 0x1f ≡ b % 32
mask_5 b = omega (arith, bit_and-digits b 0x1f, mask_4 (b / 2))

mask_6 : (b : ℕ) → bit_and b 0x3f ≡ b % 64
mask_6 b = omega (arith, bit_and-digits b 0x3f, mask_5 (b / 2))

pub low_seven_bits : (b : ℕ) → bit_and b 0x7f ≡ b % 128
low_seven_bits b = omega (arith, bit_and-digits b 0x7f, mask_6 (b / 2))
