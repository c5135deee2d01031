-- ===== src/Reality/ConnLimit/Bucket.antt =====
-- Which addresses share a bucket, and with it the cap per address.
use leshiy.Prelude.{
  ℕ, ◌≡◌, refl, sym, ap, ◌∙◌, List, [], ◌∷◌, ◌++◌, length, take, drop, arith, length-append,
  length-take, length-drop, take-append, All-append, All-take, ◌↔◌,
}
use leshiy.Prelude.Bytes.{IsByte, IsBytes, from_be, to_be, to_be-from_be}
use leshiy.Reality.ConnLimit.{bucket, key_of, zeroed}
use leshiy.Prelude.Net.{v6}

length-zeroed : (xs : List ℕ) → length (zeroed xs) ≡ length xs
unfolding zeroed
length-zeroed [] = refl
length-zeroed (x ∷ xs) = omega (arith, length-zeroed xs)

zeroed-IsBytes : (xs : List ℕ) → IsBytes (zeroed xs)
unfolding zeroed
zeroed-IsBytes [] = tt
zeroed-IsBytes (x ∷ xs) = (omega arith, zeroed-IsBytes xs)

zeroed_same : (xs ys : List ℕ) → length xs ≡ length ys → zeroed xs ≡ zeroed ys
unfolding zeroed
zeroed_same [] [] h = refl
zeroed_same [] (y ∷ ys) h = absurd (omega (arith, h))
zeroed_same (x ∷ xs) [] h = absurd (omega (arith, h))
zeroed_same (x ∷ xs) (y ∷ ys) h = ap (◌∷◌ 0) (zeroed_same xs ys (omega (arith, h)))

abbrev network : List ℕ → List ℕ
network a = take 8 a ++ zeroed (drop 8 a)

network_bytes :
    (a : List ℕ) → IsBytes a → length a ≡ 16 → to_be 16 (from_be (network a)) ≡ network a
network_bytes a h l =
    to_be-from_be 16 (network a)
      (All-append IsByte (take 8 a) (zeroed (drop 8 a)) (All-take IsByte 8 a h)
        (zeroed-IsBytes (drop 8 a)))
      (omega (
        arith,
        l,
        length-append (take 8 a) (zeroed (drop 8 a)),
        length-take 8 a,
        length-zeroed (drop 8 a),
        length-drop 8 a,
      ))

take-network : (a : List ℕ) → length a ≡ 16 → take 8 (network a) ≡ take 8 a
take-network a l = take-append (take 8 a) (zeroed (drop 8 a)) 8 (omega (arith, l, length-take 8 a))

-- Two IPv6 addresses, of sixteen octets each, are counted under one key if and only if their first
-- eight octets, the /64 network, are the same.
pub bucket-v6 :
    (a b : List ℕ)
    → IsBytes a × (length a ≡ 16)
    → IsBytes b × (length b ≡ 16)
    → key_of (bucket (v6 a)) ≡ key_of (bucket (v6 b)) ↔ take 8 a ≡ take 8 b
unfolding key_of bucket
bucket-v6 a b (ha, la) (hb, lb) = (
  λ same.
      let number : from_be (network a) ≡ from_be (network b) = omega (arith, same) in
      let octets : network a ≡ network b =
        sym (network_bytes a ha la) ∙ ap (to_be 16) number ∙ network_bytes b hb lb in
      sym (take-network a la) ∙ ap (take 8) octets ∙ take-network b lb,
  λ same.
      let rest : zeroed (drop 8 a) ≡ zeroed (drop 8 b) =
        zeroed_same (drop 8 a) (drop 8 b)
          (omega (arith, la, lb, length-drop 8 a, length-drop 8 b)) in
      rw (same, rest) refl,
)
