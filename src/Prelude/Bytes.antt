-- ===== src/Prelude/Bytes.antt =====
-- Bytes as numbers below 256, and unsigned integers in network byte order.
use leshiy.Prelude.{
  ℕ, zero, suc, ◌+◌, ◌*◌, ◌/◌, ◌%◌, ◌^◌, ◌<◌, ◌≡◌, refl, ap, ◌∙◌, List, [], ◌∷◌, ◌++◌, length, All,
  All-append, length-append, append-nil, append_assoc, subst, arith,
}
use native.Mathlib.Nat.{pow-suc}

abbrev pub IsByte : ℕ → Type 0
IsByte b = b < 256

abbrev pub IsBytes : List ℕ → Type 0
IsBytes = All IsByte

-- `to_be_bytes` of an integer of the given number of bytes.
abbrev pub to_be : ℕ → ℕ → List ℕ
to_be zero v = []
to_be (suc n) v = to_be n (v / 256) ++ (v % 256 ∷ [])

abbrev from_be_onto : ℕ → List ℕ → ℕ
from_be_onto acc [] = acc
from_be_onto acc (b ∷ bs) = from_be_onto (acc * 256 + b) bs

-- `from_be_bytes`
abbrev pub from_be : List ℕ → ℕ
from_be bs = from_be_onto 0 bs

pub length-to_be : (n v : ℕ) → length (to_be n v) ≡ n
length-to_be zero v = refl
length-to_be (suc n) v =
    omega (arith, length-append (to_be n (v / 256)) (v % 256 ∷ []), length-to_be n (v / 256))

pub to_be-IsBytes : (n v : ℕ) → IsBytes (to_be n v)
to_be-IsBytes zero v = tt
to_be-IsBytes (suc n) v =
    All-append IsByte (to_be n (v / 256)) (v % 256 ∷ []) (to_be-IsBytes n (v / 256)) (omega arith)

from_be_onto-snoc :
    (acc b : ℕ) (bs : List ℕ) → from_be_onto acc (bs ++ (b ∷ [])) ≡ from_be_onto acc bs * 256 + b
from_be_onto-snoc acc b [] = refl
from_be_onto-snoc acc b (x ∷ xs) = from_be_onto-snoc (acc * 256 + x) b xs

-- Reading what was written gives the integer back, when it fits.
pub from_be-to_be : (n v : ℕ) → v < 256 ^ n → from_be (to_be n v) ≡ v
from_be-to_be zero v h = omega arith
from_be-to_be (suc n) v h = omega (
  arith,
  from_be_onto-snoc 0 (v % 256) (to_be n (v / 256)),
  from_be-to_be n (v / 256) (omega (arith, pow-suc 256 n)),
)

to_be_onto :
    (n acc : ℕ) (bs : List ℕ)
    → IsBytes bs
    → to_be (length bs + n) (from_be_onto acc bs) ≡ to_be n acc ++ bs
to_be_onto n acc [] h = rw (zero_add n, append-nil)
  where
    zero_add : (m : ℕ) → 0 + m ≡ m
    zero_add m = omega arith
to_be_onto n acc (b ∷ bs) (hb, hbs) =
    ap (λ (m : ℕ). to_be m (from_be_onto (acc * 256 + b) bs)) (shift (length bs) n)
    ∙ to_be_onto (suc n) (acc * 256 + b) bs hbs
    ∙ rw (quotient, remainder) (append_assoc (to_be n acc) (b ∷ []) bs)
  where
    shift : (m k : ℕ) → suc m + k ≡ m + suc k
    shift m k = omega arith

    quotient : (acc * 256 + b) / 256 ≡ acc
    quotient = omega arith

    remainder : (acc * 256 + b) % 256 ≡ b
    remainder = omega arith

-- An integer read from bytes and written again gives the bytes back.
pub to_be-from_be : (n : ℕ) (bs : List ℕ) → IsBytes bs → length bs ≡ n → to_be n (from_be bs) ≡ bs
to_be-from_be n bs h l = ap (λ (m : ℕ). to_be m (from_be bs)) width ∙ to_be_onto 0 0 bs h
  where
    width : n ≡ length bs + 0
    width = omega arith

from_be_onto-lt :
    (acc k : ℕ) (bs : List ℕ) → IsBytes bs → acc < k → from_be_onto acc bs < k * 256 ^ length bs
from_be_onto-lt acc k [] h l = omega arith
from_be_onto-lt acc k (b ∷ bs) (hb, hbs) l = omega (
  arith,
  from_be_onto-lt (acc * 256 + b) (k * 256) bs hbs (omega arith),
  ap (λ (t : ℕ). k * t) (pow-suc 256 (length bs)),
)

pub from_be-lt : (n : ℕ) (bs : List ℕ) → IsBytes bs → length bs ≡ n → from_be bs < 256 ^ n
from_be-lt n bs h l =
    subst (λ (m : ℕ). from_be bs < 256 ^ m) l
      (omega (arith, from_be_onto-lt 0 1 bs h (omega arith)))
