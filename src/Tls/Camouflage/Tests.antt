-- ===== src/Tls/Camouflage/Tests.antt =====
-- Entropy whose two extension bytes agree, a hash of one value, and the theorems at them.
use leshiy.Prelude.{ℕ, ◌≡◌, refl, arith, List, [], ◌∷◌, ◌++◌}
use leshiy.Tls.Camouflage.{
  grease_from_byte, distinct_from, derive_grease, Digest, swap, shuffle, range,
  chrome_ext_permutation, expand, expand_loop, le_word,
}
use leshiy.Tls.Camouflage.Values.{IsGreased, derive_grease_lem}
use leshiy.Tls.Camouflage.Shuffle.{FillsBlocks}

abbrev entropy : List ℕ
entropy = 0xc3 ∷ 0x6f ∷ 0x5a ∷ 0x51 ∷ 0x0e ∷ 9 ∷ []

abbrev seven : List ℕ
seven = 7 ∷ 7 ∷ 7 ∷ 7 ∷ 7 ∷ 7 ∷ 7 ∷ 7 ∷ []

abbrev constant : Digest
constant input = seven ++ (seven ++ (seven ++ seven))

constant-FillsBlocks : FillsBlocks constant
constant-FillsBlocks input = refl

collides : (derive_grease entropy).ext2 ≡ 0x4a4a
unfolding derive_grease grease_from_byte distinct_from
collides = refl

shuffled : chrome_ext_permutation constant entropy 4 ≡ 0 ∷ 2 ∷ 1 ∷ 3 ∷ []
unfolding chrome_ext_permutation expand expand_loop shuffle swap le_word range
shuffled = refl

derive_grease_lem_example : IsGreased (derive_grease entropy)
derive_grease_lem_example =
    derive_grease_lem 0xc3 0x6f 0x5a 0x51 0x0e (9 ∷ [])
      (omega arith, (omega arith, (omega arith, (omega arith, (omega arith, (omega arith, tt))))))
