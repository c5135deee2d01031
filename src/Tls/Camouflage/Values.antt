-- ===== src/Tls/Camouflage/Values.antt =====
-- Each value is a GREASE value, and the two extensions differ.
use leshiy.Prelude.{
  ltb, get_or, false, [], ℕ, zero, suc, ◌<◌, ◌≡◌, ◌≢◌, refl, ap, ◌∙◌, Bool, true, not, ◌&&◌, inl,
  inr, Bool-cases, List, ◌∷◌, ◌==◌, arith,
}
use leshiy.Prelude.Bytes.{IsBytes}
use leshiy.Tls.Camouflage.{is_grease, Grease, grease_from_byte, distinct_from, derive_grease}
use Prim.Native.Nat.{bit_xor}

-- A test of every number below a bound.
abbrev every_below : ℕ → (ℕ → Bool) → Bool
every_below zero test = true
every_below (suc n) test = test n && every_below n test

and_parts : (a b : Bool) → (a && b) ≡ true → (a ≡ true) × (b ≡ true)
and_parts a b h = ground arith

every_below_lem :
    (n : ℕ) (test : ℕ → Bool) → every_below n test ≡ true → (m : ℕ) → m < n → test m ≡ true
every_below_lem zero test h m lt = absurd (omega arith)
every_below_lem (suc n) test h m lt =
    let both = and_parts (test n) (every_below n test) h in
    elim (Bool-cases (m == n)) [
      | inl same ↦ ap test (ground (arith, same)) ∙ both.0
      | inr other ↦ every_below_lem n test both.1 m (ground (arith, other))
    ]

-- A byte gives a GREASE value, and so does the other value of the pair, which is another.
abbrev good_byte : ℕ → Bool
good_byte b =
    let v = grease_from_byte b in
    let w = bit_xor v 0x1010 in is_grease v && (is_grease w && not (v == w))

good_byte_lem : (b : ℕ) → b < 256 → good_byte b ≡ true
unfolding is_grease grease_from_byte
good_byte_lem = every_below_lem 256 good_byte refl

grease_from_byte-is_grease : (b : ℕ) → b < 256 → is_grease (grease_from_byte b) ≡ true
grease_from_byte-is_grease b h =
    (and_parts (is_grease (grease_from_byte b))
      (is_grease (bit_xor (grease_from_byte b) 0x1010)
        && not (grease_from_byte b == bit_xor (grease_from_byte b) 0x1010))
      (good_byte_lem b h)).0

distinct_from_lem :
    (v b : ℕ)
    → b < 256
    → (is_grease (distinct_from v (grease_from_byte b)) ≡ true)
      × (v ≢ distinct_from v (grease_from_byte b))
unfolding distinct_from
distinct_from_lem v b h =
    let w = grease_from_byte b in
    let good = good_byte_lem b h in
    let parts =
      and_parts (is_grease w) (is_grease (bit_xor w 0x1010) && not (w == bit_xor w 0x1010)) good in
    let others = and_parts (is_grease (bit_xor w 0x1010)) (not (w == bit_xor w 0x1010)) parts.1 in
    elim (Bool-cases (w == v)) [
      | inl same ↦ (rw same others.0, rw same (λ e. ground (arith, e, same, others.1)))
      | inr other ↦ (rw other parts.0, rw other (λ e. ground (arith, e, other)))
    ]

-- Each value is a GREASE value, and the two for extensions differ.
abbrev pub IsGreased : Grease → Type 0
IsGreased g =
    (is_grease g.cipher ≡ true)
    × (is_grease g.group ≡ true)
    × (is_grease g.ext1 ≡ true)
    × (is_grease g.ext2 ≡ true)
    × (is_grease g.version ≡ true)
    × (g.ext1 ≢ g.ext2)

-- From five bytes of entropy, each value is a GREASE value and the two for extensions differ.
pub derive_grease_lem :
    (a b c d e : ℕ) (more : List ℕ)
    → IsBytes (a ∷ b ∷ c ∷ d ∷ e ∷ more)
    → IsGreased (derive_grease (a ∷ b ∷ c ∷ d ∷ e ∷ more))
unfolding derive_grease
derive_grease_lem a b c d e more h =
    let ext2 = distinct_from_lem (grease_from_byte c) d h.1.1.1.0 in
    (
      grease_from_byte-is_grease a h.0,
      grease_from_byte-is_grease b h.1.0,
      grease_from_byte-is_grease c h.1.1.0,
      ext2.0,
      grease_from_byte-is_grease e h.1.1.1.1.0,
      ext2.1,
    )

-- The values of a byte are 16-bit numbers, which also the other of the pair is.
small_byte :
    (b : ℕ)
    → b < 256
    → (ltb (grease_from_byte b) 65536 && ltb (bit_xor (grease_from_byte b) 0x1010) 65536) ≡ true
unfolding grease_from_byte
small_byte =
    every_below_lem 256
      (λ b. ltb (grease_from_byte b) 65536 && ltb (bit_xor (grease_from_byte b) 0x1010) 65536) refl

get_or-IsByte : (bs : List ℕ) (i : ℕ) → IsBytes bs → get_or bs i 0 < 256
get_or-IsByte [] i h = omega arith
get_or-IsByte (b ∷ bs) zero h = h.0
get_or-IsByte (b ∷ bs) (suc i) h = get_or-IsByte bs i h.1

-- Each value fits in 16 bits.
pub record IsSmall (g : Grease) : Type 0 where
  pub cipher_fits : g.cipher < 65536
  pub group_fits : g.group < 65536
  pub ext1_fits : g.ext1 < 65536
  pub ext2_fits : g.ext2 < 65536
  pub version_fits : g.version < 65536

pub derive_grease-IsSmall : (entropy : List ℕ) → IsBytes entropy → IsSmall (derive_grease entropy)
unfolding derive_grease distinct_from
derive_grease-IsSmall entropy h = record {
  cipher_fits = ground (arith, small_byte (get_or entropy 0 0) (get_or-IsByte entropy 0 h));
  group_fits = ground (arith, small_byte (get_or entropy 1 0) (get_or-IsByte entropy 1 h));
  ext1_fits = ground (arith, small_byte (get_or entropy 2 0) (get_or-IsByte entropy 2 h));
  ext2_fits = ground (arith, small_byte (get_or entropy 3 0) (get_or-IsByte entropy 3 h));
  version_fits = ground (arith, small_byte (get_or entropy 4 0) (get_or-IsByte entropy 4 h));
}

-- Neither is one of a type that is not a GREASE value.
pub derive_grease-ne :
    (entropy : List ℕ) (t : ℕ)
    → IsBytes entropy
    → is_grease t ≡ false
    → ((derive_grease entropy).ext1 ≢ t) × ((derive_grease entropy).ext2 ≢ t)
unfolding derive_grease
derive_grease-ne entropy t h plain =
    let first = grease_from_byte-is_grease (get_or entropy 2 0) (get_or-IsByte entropy 2 h) in
    let second =
      (distinct_from_lem (grease_from_byte (get_or entropy 2 0)) (get_or entropy 3 0)
        (get_or-IsByte entropy 3 h)).0 in
    (λ e. cc (first, plain), λ e. cc (second, plain))

-- Each is a GREASE value, whatever the entropy.
pub derive_grease-is_grease :
    (entropy : List ℕ)
    → IsBytes entropy
    → (is_grease (derive_grease entropy).cipher ≡ true)
      × (is_grease (derive_grease entropy).version ≡ true)
unfolding derive_grease
derive_grease-is_grease entropy h = (
  grease_from_byte-is_grease (get_or entropy 0 0) (get_or-IsByte entropy 0 h),
  grease_from_byte-is_grease (get_or entropy 4 0) (get_or-IsByte entropy 4 h),
)
