-- ===== src/Tls/Parser.antt =====
-- crates/leshiy-tls/src/ja.rs: `Parser`. A parser is the bytes it has left, which is all that its
-- operations and their errors depend on.
use leshiy.Prelude.{
  ℕ, ◌<◌, ◌≡◌, refl, ap, sym, ◌∙◌, ◌/◌, ◌%◌, append-nil, arith, false, List, [], ◌∷◌, ◌++◌, length,
  length-append, take-append, drop-append, get_or, take, drop, ltb, if◌then◌else◌,
}
use leshiy.Prelude.Bytes.{to_be, from_be, from_be-to_be}
use leshiy.Tls.Error.{Outcome, failed, done, truncated, ◌>>◌}

unfoldable pub need : List ℕ → ℕ → Outcome (Unit {0})
need p n = if ltb (length p) n then failed (truncated n (length p)) else done tt

unfoldable pub take_slice : List ℕ → ℕ → Outcome (List ℕ × List ℕ)
take_slice p n = need p n >> done (take n p, drop n p)

unfoldable pub skip : List ℕ → ℕ → Outcome (List ℕ)
skip p n = need p n >> done (drop n p)

unfoldable pub u8 : List ℕ → Outcome (ℕ × List ℕ)
u8 p = need p 1 >> done (get_or p 0 0, drop 1 p)

unfoldable pub u16 : List ℕ → Outcome (ℕ × List ℕ)
u16 p = need p 2 >> done (from_be (take 2 p), drop 2 p)

unfoldable pub u24 : List ℕ → Outcome (ℕ × List ℕ)
u24 p = need p 3 >> done (from_be (take 3 p), drop 3 p)

-- What the operations do on bytes known to be there.
pub u8-cons : (b : ℕ) (p : List ℕ) → u8 (b ∷ p) ≡ done (b, p)
unfolding u8 need
u8-cons b p = let long : ltb (length (b ∷ p)) 1 ≡ false = ground arith in rw long refl

pub u16-cons : (a b : ℕ) (p : List ℕ) → u16 (a ∷ b ∷ p) ≡ done (from_be (a ∷ b ∷ []), p)
unfolding u16 need
u16-cons a b p = let long : ltb (length (a ∷ b ∷ p)) 2 ≡ false = ground arith in rw long refl

pub u24-cons : (a b c : ℕ) (p : List ℕ) → u24 (a ∷ b ∷ c ∷ p) ≡ done (from_be (a ∷ b ∷ c ∷ []), p)
unfolding u24 need
u24-cons a b c p = let long : ltb (length (a ∷ b ∷ c ∷ p)) 3 ≡ false = ground arith in rw long refl

pub take_slice-append :
    (xs ys : List ℕ) (n : ℕ) → n ≡ length xs → take_slice (xs ++ ys) n ≡ done (xs, ys)
unfolding take_slice need
take_slice-append xs ys n h =
    let long : ltb (length (xs ++ ys)) n ≡ false = ground (arith, length-append xs ys, h) in
    rw (long, take-append xs ys n h, drop-append xs ys n h) refl

pub skip-append : (xs ys : List ℕ) (n : ℕ) → n ≡ length xs → skip (xs ++ ys) n ≡ done ys
unfolding skip need
skip-append xs ys n h =
    let long : ltb (length (xs ++ ys)) n ≡ false = ground (arith, length-append xs ys, h) in
    rw (long, drop-append xs ys n h) refl

pub u16-to_be : (v : ℕ) (p : List ℕ) → v < 65536 → u16 (to_be 2 v ++ p) ≡ done (v, p)
u16-to_be v p h =
    let read : from_be (to_be 2 v) ≡ v = from_be-to_be 2 v h in
    rw (u16-cons (v / 256 % 256) (v % 256) p, read) refl

pub take_slice_all : (xs : List ℕ) (n : ℕ) → n ≡ length xs → take_slice xs n ≡ done (xs, [])
take_slice_all xs n h =
    ap (λ (ys : List ℕ). take_slice ys n) (sym (append-nil xs)) ∙ take_slice-append xs [] n h
