-- ===== src/Tls/Builder/Order.antt =====
-- The order sent holds each of the profile's types as often as the profile does.
use leshiy.Prelude.{
  ℕ, zero, suc, ◌+◌, ◌-◌, ◌*◌, ◌%◌, ◌≤◌, ◌<◌, ◌≡◌, refl, ap, sym, ◌∙◌, List, [], ◌∷◌, ◌++◌, map,
  length, get_or, set, take, drop, take_exact, leb, Bool-cases, inl, inr, arith,
}
use mathlib.Core.List.{map-append}
use leshiy.Tls.Camouflage.{
  Digest, expand, swap, le_word, shuffle, range, shuffle_domain, chrome_ext_permutation,
}
use leshiy.Tls.Camouflage.Shuffle.{count, count-swap, length-swap, length-range}
use leshiy.Tls.Builder.{order}

map-set : (g : ℕ → ℕ) (xs : List ℕ) (i a : ℕ) → map g (set xs i a) ≡ set (map g xs) i (g a)
map-set g [] i a = refl
map-set g (x ∷ xs) zero a = refl
map-set g (x ∷ xs) (suc i) a = ap (◌∷◌ (g x)) (map-set g xs i a)

get_or-map :
    (g : ℕ → ℕ) (xs : List ℕ) (i : ℕ) → i < length xs → get_or (map g xs) i 0 ≡ g (get_or xs i 0)
get_or-map g [] i h = absurd (omega arith)
get_or-map g (x ∷ xs) zero h = refl
get_or-map g (x ∷ xs) (suc i) h = get_or-map g xs i (omega arith)

length-map : (g : ℕ → ℕ) (xs : List ℕ) → length (map g xs) ≡ length xs
length-map g [] = refl
length-map g (x ∷ xs) = ap suc (length-map g xs)

module _ (g : ℕ → ℕ) (v : ℕ) where
  -- Mapping and swapping commute.
  map-swap :
      (xs : List ℕ) (i j : ℕ)
      → i < length xs
      → j < length xs
      → map g (swap xs i j) ≡ swap (map g xs) i j
  unfolding swap
  map-swap xs i j p q =
      map-set g (set xs j (get_or xs i 0)) i (get_or xs j 0)
      ∙ rw (map-set g xs j (get_or xs i 0), get_or-map g xs i p, get_or-map g xs j q) refl

  count-map-shuffle :
      (i : ℕ) (stream perm : List ℕ)
      → i < length perm
      → count v (map g (shuffle i stream perm)) ≡ count v (map g perm)
  unfolding shuffle
  count-map-shuffle zero stream perm h = refl
  count-map-shuffle (suc i) stream perm h =
      let j = le_word stream % (suc i + 1) in
      let within : j < length perm = omega arith in
      let next = swap perm (suc i) j in
      count-map-shuffle i (drop 4 stream) next (omega (arith, length-swap perm (suc i) j))
      ∙ ap (count v) (map-swap perm (suc i) j h within)
      ∙ count-swap v (map g perm) (suc i) j (omega (arith, length-map g perm))
          (omega (arith, length-map g perm))

take-suc :
    (xs : List ℕ) (n : ℕ) → n < length xs → take (suc n) xs ≡ take n xs ++ (get_or xs n 0 ∷ [])
take-suc [] n h = absurd (omega arith)
take-suc (x ∷ xs) zero h = refl
take-suc (x ∷ xs) (suc n) h = ap (◌∷◌ x) (take-suc xs n (omega arith))

-- Reading a list at the first indices gives its front.
map-get_or-range :
    (xs : List ℕ) (n : ℕ) → n ≤ length xs → map (λ i. get_or xs i 0) (range n) ≡ take n xs
unfolding range
map-get_or-range xs zero h = refl
map-get_or-range xs (suc n) h =
    map-append (λ i. get_or xs i 0) (range n) (n ∷ [])
    ∙ ap (λ (ys : List ℕ). ys ++ (get_or xs n 0 ∷ [])) (map-get_or-range xs n (omega arith))
    ∙ sym (take-suc xs n h)

-- However the entropy shuffles the types, each stands in the order sent as often as before.
pub order-count :
    (sha256 : Digest) (entropy middle : List ℕ) (v : ℕ)
    → count v (order sha256 entropy middle) ≡ count v middle
unfolding order chrome_ext_permutation
order-count sha256 entropy middle v =
    let n = length middle in
    let at = λ (idx : ℕ). get_or middle idx 0 in
    let whole : map at (range n) ≡ middle =
      map-get_or-range middle n (omega arith) ∙ take_exact middle n refl in
    elim (Bool-cases (leb n 1)) [
      | inl few ↦ rw few (ap (count v) whole)
      | inr many ↦
          let stream = expand sha256 entropy shuffle_domain ((n - 1) * 4) in
          rw many (
            count-map-shuffle at v (n - 1) stream (range n) (ground (arith, many, length-range n))
            ∙ ap (count v) whole)
    ]
