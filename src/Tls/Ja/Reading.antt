-- ===== src/Tls/Ja/Reading.antt =====
-- The bodies of the extensions that are built are read back.
use leshiy.Prelude.{
  ℕ, zero, suc, ◌*◌, ◌%◌, ◌≤◌, ◌<◌, ◌≡◌, refl, ap, sym, ◌∙◌, List, [], ◌∷◌, ◌++◌, map, All, length,
  append-nil, length-append, arith,
}
use leshiy.Tls.Error.{done}
use leshiy.Tls.Parser.{u8-cons, u16-to_be, take_slice-append}
use leshiy.Tls.Builder.{u16s, alpn_protos}
use leshiy.Tls.Ja.{read_u16s, read_u8s, read_protocols}

pub length-u16s : (xs : List ℕ) → length (u16s xs) ≡ 2 * length xs
length-u16s [] = refl
length-u16s (x ∷ xs) = omega (arith, length-u16s xs)

pub read_u16s-u16s :
    (xs more : List ℕ)
    → All (λ x. x < 65536) xs
    → read_u16s (length xs) (u16s xs ++ more) ≡ done (xs, more)
unfolding read_u16s
read_u16s-u16s [] more h = refl
read_u16s-u16s (x ∷ xs) more h =
    rw (u16-to_be x (u16s xs ++ more) h.0, read_u16s-u16s xs more h.1) refl

pub read_u16s-All :
    (xs : List ℕ) (n : ℕ)
    → All (λ x. x < 65536) xs
    → n ≡ length xs
    → read_u16s n (u16s xs) ≡ done (xs, [])
read_u16s-All xs n h e =
    rw e (ap (read_u16s (length xs)) (sym (append-nil (u16s xs))) ∙ read_u16s-u16s xs [] h)

pub read_u8s_whole : (xs : List ℕ) → read_u8s (length xs) xs ≡ done (xs, [])
unfolding read_u8s
read_u8s_whole [] = refl
read_u8s_whole (x ∷ xs) = rw (u8-cons x xs, read_u8s_whole xs) refl

-- Protocol names that fit their length byte.
abbrev pub FitByte : List (List ℕ) → Type 0
FitByte = All (λ (a : List ℕ). length a < 256)

pub read_protocols-alpn :
    (lossy : List ℕ → List ℕ) (protocols : List (List ℕ)) (fuel : ℕ)
    → FitByte protocols
    → length (alpn_protos protocols) ≤ fuel
    → read_protocols lossy fuel (alpn_protos protocols) ≡ done (map lossy protocols)
unfolding read_protocols
read_protocols-alpn lossy [] fuel h enough = refl
read_protocols-alpn lossy (a ∷ rest) zero h enough = absurd (omega arith)
read_protocols-alpn lossy (a ∷ rest) (suc fuel) h enough =
    let low : length a % 256 ≡ length a = omega (arith, h.0) in
    let size = length-append a (alpn_protos rest) in
    rw
      (
        low,
        u8-cons (length a) (a ++ alpn_protos rest),
        take_slice-append a (alpn_protos rest) (length a) refl,
        read_protocols-alpn lossy rest fuel h.1 (omega (arith, enough, size)),
      )
      refl
