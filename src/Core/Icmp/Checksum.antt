-- ===== src/Core/Icmp/Checksum.antt =====
-- The checksum as arithmetic, and what the writers of a checksum promise: a receiver that sums the
-- message gets zero.
use leshiy.Prelude.{
  ℕ, suc, ◌+◌, ◌*◌, ◌/◌, ◌%◌, ◌^◌, ◌≤◌, ◌<◌, ◌≡◌, refl, ap, ◌∙◌, true, List, [], ◌∷◌, length,
  le→ltb_false, arith,
}
use leshiy.Prelude.Bytes.{IsBytes, from_be}
use leshiy.Core.Icmp.{
  header_len, checksum, set_v4_checksum, v6_checksum, set_v6_checksum, sum_words, sum_message, fold,
  pseudo_sum, add_u32,
}
use leshiy.Core.Icmp.Fold.{fold_complement, fold-lt}

-- The sum of the big-endian words, with no machine width.
abbrev pub word_sum : List ℕ → ℕ
word_sum [] = 0
word_sum (last ∷ []) = last * 256
word_sum (a ∷ b ∷ rest) = a * 256 + b + word_sum rest

pub word_sum-le : (xs : List ℕ) → IsBytes xs → 2 * word_sum xs ≤ 65535 * (length xs + 1)
word_sum-le [] h = omega arith
word_sum-le (last ∷ []) h = omega arith
word_sum-le (a ∷ b ∷ rest) (ha, (hb, h)) = omega (arith, word_sum-le rest h)

-- Where the plain sum fits a u32, nothing wraps.
pub sum_words-word_sum :
    (acc : ℕ) (xs : List ℕ) → acc + word_sum xs < 2 ^ 32 → sum_words acc xs ≡ acc + word_sum xs
unfolding sum_words
sum_words-word_sum acc [] h = omega arith
sum_words-word_sum acc (last ∷ []) h = omega arith
sum_words-word_sum acc (a ∷ b ∷ rest) h =
    ap (λ (t : ℕ). sum_words t rest) step
    ∙ sum_words-word_sum (acc + (a * 256 + b)) rest (omega arith)
    ∙ regroup
  where
    step : (acc + from_be (a ∷ b ∷ [])) % 2 ^ 32 ≡ acc + (a * 256 + b)
    step = omega arith

    regroup : acc + (a * 256 + b) + word_sum rest ≡ acc + (a * 256 + b + word_sum rest)
    regroup = omega arith

-- Behind the checksum field the skipping loop sums every word.
sum_message-sum_words : (i acc : ℕ) (xs : List ℕ) → 2 ≤ i → sum_message i acc xs ≡ sum_words acc xs
unfolding sum_words sum_message
sum_message-sum_words i acc [] h = refl
sum_message-sum_words i acc (last ∷ []) h = refl
sum_message-sum_words i acc (a ∷ b ∷ rest) h =
    ground (arith, sum_message-sum_words (i + 1) (add_u32 acc (from_be (a ∷ b ∷ []))) rest)

zero_add : (n : ℕ) → 0 + n ≡ n
zero_add n = omega arith

-- A message whose first three words are `a b`, a field that holds `ck`, and the rest.
sum_words_field :
    (acc a b ck : ℕ) (rest : List ℕ)
    → ck < 2 ^ 16
    → acc + (a * 256 + b + word_sum rest) + 65535 < 2 ^ 32
    → sum_words acc (a ∷ b ∷ (ck / 256 % 256) ∷ (ck % 256) ∷ rest)
      ≡ acc + (a * 256 + b + word_sum rest) + ck
sum_words_field acc a b ck rest h fits =
    sum_words-word_sum acc (a ∷ b ∷ (ck / 256 % 256) ∷ (ck % 256) ∷ rest) (omega arith)
    ∙ omega arith

-- The word sum of a message of at most 65535 bytes leaves room in a u32.
field_room :
    (a b c d : ℕ) (rest : List ℕ)
    → IsBytes (a ∷ b ∷ c ∷ d ∷ rest)
    → length rest ≤ 65531
    → a * 256 + b + word_sum rest < 2 ^ 31 + 131072
field_room a b c d rest (ha, (hb, (hc, (hd, h)))) hi = omega (arith, word_sum-le rest h)

-- A message with its checksum written by `set_v4_checksum` sums to zero.
pub checksum-set_v4_checksum :
    (msg : List ℕ)
    → IsBytes msg
    → header_len ≤ length msg
    → length msg ≤ 65535
    → ((set_v4_checksum msg).0 ≡ true) × (checksum (set_v4_checksum msg).1 ≡ 0)
unfolding set_v4_checksum checksum
checksum-set_v4_checksum [] h lo hi = absurd (omega arith)
checksum-set_v4_checksum (a ∷ []) h lo hi = absurd (omega arith)
checksum-set_v4_checksum (a ∷ b ∷ []) h lo hi = absurd (omega arith)
checksum-set_v4_checksum (a ∷ b ∷ c ∷ []) h lo hi = absurd (omega arith)
checksum-set_v4_checksum (a ∷ b ∷ c ∷ d ∷ rest) h lo hi =
    let room = field_room a b c d rest h (omega arith) in
    let s = a * 256 + b + word_sum rest in
    let zeroed : sum_words 0 (a ∷ b ∷ 0 ∷ 0 ∷ rest) ≡ s =
      sum_words_field 0 a b 0 rest (omega arith) (omega arith) ∙ omega arith in
    rw (le→ltb_false _ header_len lo) (
      refl,
      rw zeroed (
          ap fold (sum_words_field 0 a b (fold s) rest (fold-lt s) (omega arith))
          ∙ from_zero s (omega arith)),
    )
  where
    from_zero : (t : ℕ) → t + 65535 < 2 ^ 32 → fold (0 + t + fold t) ≡ 0
    from_zero t fits = ap (λ (x : ℕ). fold (x + fold t)) (zero_add t) ∙ fold_complement t fits

pseudo_sum-lt :
    (src dst : List ℕ) (len : ℕ)
    → IsBytes src
    → IsBytes dst
    → length src ≡ 16
    → length dst ≡ 16
    → len < 2 ^ 16
    → pseudo_sum src dst len < 2 ^ 21
unfolding pseudo_sum
pseudo_sum-lt src dst len hs hd ls ld hl =
    let from_src = sum_words-word_sum 0 src (omega (arith, word_sum-le src hs)) in
    let from_dst =
      sum_words-word_sum (sum_words 0 src) dst
        (omega (arith, from_src, word_sum-le src hs, word_sum-le dst hd)) in
    omega (arith, from_src, from_dst, word_sum-le src hs, word_sum-le dst hd)

-- What the skipping loop computes for such a message, whatever the field holds.
v6_checksum_lem :
    (a b c d : ℕ) (rest src dst : List ℕ) (p : ℕ)
    → pseudo_sum src dst (suc (suc (suc (suc (length rest))))) ≡ p
    → length rest ≤ 65531
    → p + (a * 256 + b + word_sum rest) < 2 ^ 32
    → v6_checksum (a ∷ b ∷ c ∷ d ∷ rest) src dst ≡ fold (p + (a * 256 + b + word_sum rest))
unfolding v6_checksum sum_message
v6_checksum_lem a b c d rest src dst p e hi fits =
    ap (λ (n : ℕ). fold (sum_message 0 (pseudo_sum src dst n) (a ∷ b ∷ c ∷ d ∷ rest))) narrow
    ∙ ap (λ (q : ℕ). fold (sum_message 0 q (a ∷ b ∷ c ∷ d ∷ rest))) e
    ∙ ap fold (sum_message-sum_words 2 (add_u32 p (from_be (a ∷ b ∷ []))) rest (omega arith))
    ∙ ap fold (unfold sum_words in sum_words-word_sum p (a ∷ b ∷ rest) fits)
  where
    narrow : suc (suc (suc (suc (length rest)))) % 2 ^ 32 ≡ suc (suc (suc (suc (length rest))))
    narrow = omega arith

-- A message with its checksum written by `set_v6_checksum` sums to zero behind the pseudo-header of
-- its addresses and length.
pub fold-set_v6_checksum :
    (msg src dst : List ℕ)
    → IsBytes msg
    → IsBytes src
    → IsBytes dst
    → length src ≡ 16
    → length dst ≡ 16
    → header_len ≤ length msg
    → length msg ≤ 65535
    → ((set_v6_checksum msg src dst).0 ≡ true)
      × (fold (sum_words (pseudo_sum src dst (length msg)) (set_v6_checksum msg src dst).1) ≡ 0)
unfolding set_v6_checksum
fold-set_v6_checksum [] src dst h hs hd ls ld lo hi = absurd (omega arith)
fold-set_v6_checksum (a ∷ []) src dst h hs hd ls ld lo hi = absurd (omega arith)
fold-set_v6_checksum (a ∷ b ∷ []) src dst h hs hd ls ld lo hi = absurd (omega arith)
fold-set_v6_checksum (a ∷ b ∷ c ∷ []) src dst h hs hd ls ld lo hi = absurd (omega arith)
fold-set_v6_checksum (a ∷ b ∷ c ∷ d ∷ rest) src dst h hs hd ls ld lo hi =
    let p = pseudo_sum src dst (suc (suc (suc (suc (length rest))))) in
    let small : p < 2 ^ 21 = pseudo_sum-lt src dst _ hs hd ls ld (omega arith) in
    let room = field_room a b c d rest h (omega arith) in
    let s = p + (a * 256 + b + word_sum rest) in
    rw (le→ltb_false _ header_len lo) (
      refl,
      rw (v6_checksum_lem a b 0 0 rest src dst p refl (omega arith) (omega arith)) (
          ap fold (sum_words_field p a b (fold s) rest (fold-lt s) (omega arith))
          ∙ fold_complement s (omega arith)),
    )
