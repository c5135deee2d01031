-- ===== src/Tls/Camouflage.antt =====
-- crates/leshiy-tls/src/camouflage.rs: what is random in a ClientHello. SHA-256 (crate sha2) is an
-- argument. The entropy is a list of bytes, of which five are read for GREASE.
pub mod Values
pub mod Shuffle
mod Tests
use leshiy.Prelude.{
  ℕ, zero, suc, ◌+◌, ◌-◌, ◌*◌, ◌/◌, ◌%◌, ◌^◌, bit_and, bit_or, Bool, ◌&&◌, List, [], ◌∷◌, ◌++◌,
  length, get_or, set, take, drop, ltb, leb, ◌==◌, if◌then◌else◌,
}
use leshiy.Prelude.Bytes.{to_be}
use Prim.Native.Nat.{bit_xor}

unfoldable pub is_grease : ℕ → Bool
is_grease v = bit_and v 0x0f0f == 0x0a0a && v / 2 ^ 8 == bit_and v 0xff

pub record Grease : Type 0 where
  pub cipher : ℕ
  pub group : ℕ
  pub ext1 : ℕ
  pub ext2 : ℕ
  pub version : ℕ

-- The shift is that of a u16.
unfoldable pub grease_from_byte : ℕ → ℕ
grease_from_byte b = let byte = bit_or (bit_and b 0xf0) 0x0a in bit_or (byte * 2 ^ 8 % 2 ^ 16) byte

unfoldable pub distinct_from : ℕ → ℕ → ℕ
distinct_from ext1 ext2 = if ext2 == ext1 then bit_xor ext2 0x1010 else ext2

unfoldable pub derive_grease : List ℕ → Grease
derive_grease entropy =
    let ext1 = grease_from_byte (get_or entropy 2 0) in
    record {
      cipher = grease_from_byte (get_or entropy 0 0);
      group = grease_from_byte (get_or entropy 1 0);
      ext1 = ext1;
      ext2 = distinct_from ext1 (grease_from_byte (get_or entropy 3 0));
      version = grease_from_byte (get_or entropy 4 0);
    }

-- What is fed to the hash, and its 32 bytes.
abbrev pub Digest : Type 0
Digest = List ℕ → List ℕ

-- The loop of `expand`, with a round for each byte wanted. The counter is a u8.
unfoldable pub expand_loop : Digest → List ℕ → ℕ → ℕ → ℕ → List ℕ → List ℕ
expand_loop sha256 seed zero n counter out = out
expand_loop sha256 seed (suc fuel) n counter out =
    let longer =
      expand_loop sha256 seed fuel n ((counter + 1) % 2 ^ 8)
        (out ++ sha256 (seed ++ (counter ∷ []))) in
    if ltb (length out) n then longer else out

unfoldable pub expand : Digest → List ℕ → List ℕ → ℕ → List ℕ
expand sha256 entropy domain n = take n (expand_loop sha256 (entropy ++ domain) n n 0 [])

unfoldable pub swap : List ℕ → ℕ → ℕ → List ℕ
swap xs i j = set (set xs j (get_or xs i 0)) i (get_or xs j 0)

-- `u32::from_le_bytes` of the four bytes at the front.
unfoldable pub le_word : List ℕ → ℕ
le_word bs = get_or bs 0 0 + get_or bs 1 0 * 2 ^ 8 + get_or bs 2 0 * 2 ^ 16 + get_or bs 3 0 * 2 ^ 24

-- The loop from `i` down to 1, over what is left of the stream.
unfoldable pub shuffle : ℕ → List ℕ → List ℕ → List ℕ
shuffle zero stream perm = perm
shuffle (suc below) stream perm =
    let i = suc below in
    let j = le_word stream % (i + 1) in shuffle below (drop 4 stream) (swap perm i j)

-- `(0..n).collect()`.
unfoldable pub range : ℕ → List ℕ
range zero = []
range (suc n) = range n ++ (n ∷ [])

abbrev pub shuffle_domain : List ℕ
shuffle_domain =
    b'l' ∷ b'e' ∷ b's' ∷ b'h' ∷ b'i' ∷ b'y' ∷ b'-' ∷ b'e' ∷ b'x' ∷ b't' ∷ b'-' ∷ b's' ∷ b'h' ∷ b'u'
    ∷ b'f' ∷ b'f' ∷ b'l' ∷ b'e' ∷ []

abbrev pub ech_domain : List ℕ
ech_domain = b'l' ∷ b'e' ∷ b's' ∷ b'h' ∷ b'i' ∷ b'y' ∷ b'-' ∷ b'e' ∷ b'c' ∷ b'h' ∷ []

unfoldable pub chrome_ext_permutation : Digest → List ℕ → ℕ → List ℕ
chrome_ext_permutation sha256 entropy n =
    if leb n 1
    then range n
    else shuffle (n - 1) (expand sha256 entropy shuffle_domain ((n - 1) * 4)) (range n)

unfoldable pub grease_ech_outer : Digest → List ℕ → List ℕ
grease_ech_outer sha256 entropy =
    let stream = expand sha256 entropy ech_domain (1 + 32 + 1 + 208) in
    let enc = take 32 (drop 1 stream) in
    let payload_len = 144 + get_or stream 33 0 % 65 in
    let payload = take payload_len (drop 34 stream) in
    (0x00 ∷ [])
    ++ (to_be 2 0x0001
        ++ (to_be 2 0x0001
            ++ (get_or stream 0 0
                ∷ (to_be 2 (length enc) ++ (enc ++ (to_be 2 payload_len ++ payload))))))
