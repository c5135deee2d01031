-- ===== src/Tls/Camouflage/Shuffle.antt =====
-- The shuffle permutes, and its stream is as long as it reads.
use leshiy.Prelude.{
  ℕ, zero, suc, ◌+◌, ◌-◌, ◌*◌, ◌%◌, ◌≤◌, ◌<◌, ◌≡◌, refl, ap, ◌∙◌, List, [], ◌∷◌, ◌++◌, length,
  get_or, set, take, drop, length-append, length-take, length-drop, ltb, leb, ◌==◌, if◌then◌else◌,
  arith, Bool-cases, inl, inr,
}
use leshiy.Prelude.Bytes.{to_be}
use leshiy.Tls.Camouflage.{
  Digest, expand_loop, expand, swap, le_word, shuffle, range, shuffle_domain, ech_domain,
  chrome_ext_permutation, grease_ech_outer,
}

-- How often a number stands in a list.
abbrev one_if : ℕ → ℕ → ℕ
one_if v x = if v == x then 1 else 0

abbrev pub count : ℕ → List ℕ → ℕ
count v [] = 0
count v (x ∷ xs) = one_if v x + count v xs

pub count-append : (v : ℕ) (xs ys : List ℕ) → count v (xs ++ ys) ≡ count v xs + count v ys
count-append v [] ys = omega arith
count-append v (x ∷ xs) ys = omega (arith, count-append v xs ys)

pub length-set : (xs : List ℕ) (i a : ℕ) → length (set xs i a) ≡ length xs
length-set [] i a = refl
length-set (x ∷ xs) zero a = refl
length-set (x ∷ xs) (suc i) a = ap suc (length-set xs i a)

-- A write puts the new value in the old one's place.
pub count-set :
    (v : ℕ) (xs : List ℕ) (i a : ℕ)
    → i < length xs
    → count v (set xs i a) + one_if v (get_or xs i 0) ≡ count v xs + one_if v a
count-set v [] i a h = absurd (omega arith)
count-set v (x ∷ xs) zero a h = omega arith
count-set v (x ∷ xs) (suc i) a h = omega (arith, count-set v xs i a (omega arith))

-- Writing an element elsewhere leaves it where it is.
pub get_or-set : (xs : List ℕ) (i j : ℕ) → get_or (set xs j (get_or xs i 0)) i 0 ≡ get_or xs i 0
get_or-set [] i j = refl
get_or-set (x ∷ xs) zero zero = refl
get_or-set (x ∷ xs) zero (suc j) = refl
get_or-set (x ∷ xs) (suc i) zero = refl
get_or-set (x ∷ xs) (suc i) (suc j) = get_or-set xs i j

pub count-swap :
    (v : ℕ) (xs : List ℕ) (i j : ℕ)
    → i < length xs
    → j < length xs
    → count v (swap xs i j) ≡ count v xs
unfolding swap
count-swap v xs i j p q =
    let first = count-set v xs j (get_or xs i 0) q in
    let second =
      count-set v (set xs j (get_or xs i 0)) i (get_or xs j 0)
        (omega (arith, length-set xs j (get_or xs i 0))) in
    let same = ap (one_if v) (get_or-set xs i j) in omega (arith, first, second, same)

pub length-swap : (xs : List ℕ) (i j : ℕ) → length (swap xs i j) ≡ length xs
unfolding swap
length-swap xs i j =
    length-set (set xs j (get_or xs i 0)) i (get_or xs j 0) ∙ length-set xs j (get_or xs i 0)

count-shuffle :
    (v i : ℕ) (stream perm : List ℕ)
    → i < length perm
    → (count v (shuffle i stream perm) ≡ count v perm)
      × (length (shuffle i stream perm) ≡ length perm)
unfolding shuffle
count-shuffle v zero stream perm h = (refl, refl)
count-shuffle v (suc i) stream perm h =
    let j = le_word stream % (suc i + 1) in
    let long = length-swap perm (suc i) j in
    let rest = count-shuffle v i (drop 4 stream) (swap perm (suc i) j) (omega (arith, long)) in
    (rest.0 ∙ count-swap v perm (suc i) j h (omega arith), rest.1 ∙ long)

count-range : (v n : ℕ) → count v (range n) ≡ (if ltb v n then 1 else 0)
unfolding range
count-range v zero = ground arith
count-range v (suc n) = ground (arith, count-append v (range n) (n ∷ []), count-range v n)

pub length-range : (n : ℕ) → length (range n) ≡ n
unfolding range
length-range zero = refl
length-range (suc n) = omega (arith, length-append (range n) (n ∷ []), length-range n)

-- For each number of extensions, the order computed is as long as that and holds each index below
-- it once, and nothing else.
pub chrome_ext_permutation-count :
    (sha256 : Digest) (entropy : List ℕ) (n v : ℕ)
    → (length (chrome_ext_permutation sha256 entropy n) ≡ n)
      × (count v (chrome_ext_permutation sha256 entropy n) ≡ (if ltb v n then 1 else 0))
unfolding chrome_ext_permutation
chrome_ext_permutation-count sha256 entropy n v =
    let size = length-range n in
    elim (Bool-cases (leb n 1)) [
      | inl few ↦ rw few (size, count-range v n)
      | inr many ↦
          let stream = expand sha256 entropy shuffle_domain ((n - 1) * 4) in
          let all = count-shuffle v (n - 1) stream (range n) (ground (arith, many, size)) in
          rw many (all.1 ∙ size, all.0 ∙ count-range v n)
    ]

-- Each digest has its 32 bytes.
abbrev pub FillsBlocks : Digest → Type 0
FillsBlocks sha256 = (input : List ℕ) → length (sha256 input) ≡ 32

expand_loop-long :
    (sha256 : Digest) (seed : List ℕ) (fuel n counter : ℕ) (out : List ℕ)
    → FillsBlocks sha256
    → n ≤ length out + fuel
    → n ≤ length (expand_loop sha256 seed fuel n counter out)
unfolding expand_loop
expand_loop-long sha256 seed zero n counter out width h = omega arith
expand_loop-long sha256 seed (suc fuel) n counter out width h =
    let block = sha256 (seed ++ (counter ∷ [])) in
    let grown : n ≤ length (out ++ block) + fuel =
      omega (arith, length-append out block, width (seed ++ (counter ∷ []))) in
    let rest =
      expand_loop-long sha256 seed fuel n ((counter + 1) % 256) (out ++ block) width grown in
    elim (Bool-cases (ltb (length out) n)) [
      | inl short ↦ rw short rest
      | inr long ↦ rw long (ground (arith, long))
    ]

-- Whatever the domain and the number of bytes asked for, the stream is that long: the loop has
-- rounds enough.
pub length-expand :
    (sha256 : Digest) (entropy domain : List ℕ) (n : ℕ)
    → FillsBlocks sha256
    → length (expand sha256 entropy domain n) ≡ n
unfolding expand
length-expand sha256 entropy domain n width =
    let all = expand_loop sha256 (entropy ++ domain) n n 0 [] in
    let long = expand_loop-long sha256 (entropy ++ domain) n n 0 [] width (omega arith) in
    omega (arith, length-take n all, long)

-- The GREASE-ECH body is its fixed header, a config id, a key of 32 bytes and a payload of 144 to
-- 208 bytes, each behind its true length.
pub grease_ech_outer_lem :
    (sha256 : Digest) (entropy : List ℕ)
    → FillsBlocks sha256
    → (config_id : ℕ) × (enc : List ℕ) × (payload : List ℕ) × (grease_ech_outer sha256 entropy
        ≡ (0 ∷ 0 ∷ 1 ∷ 0 ∷ 1 ∷ config_id ∷ 0 ∷ 32 ∷ [])
          ++ (enc ++ (to_be 2 (length payload) ++ payload)))
      × (length enc ≡ 32)
      × (144 ≤ length payload)
      × (length payload ≤ 208)
unfolding grease_ech_outer
grease_ech_outer_lem sha256 entropy width =
    let stream = expand sha256 entropy ech_domain 242 in
    let size : length stream ≡ 242 = length-expand sha256 entropy ech_domain 242 width in
    let enc = take 32 (drop 1 stream) in
    let payload_len = 144 + get_or stream 33 0 % 65 in
    let payload = take payload_len (drop 34 stream) in
    let enc_size : length enc ≡ 32 =
      omega (arith, length-take 32 (drop 1 stream), length-drop 1 stream, size) in
    let payload_size : length payload ≡ payload_len =
      omega (arith, length-take payload_len (drop 34 stream), length-drop 34 stream, size) in
    (
      get_or stream 0 0,
      enc,
      payload,
      rw (enc_size, payload_size) refl,
      enc_size,
      omega (arith, payload_size),
      omega (arith, payload_size),
    )
