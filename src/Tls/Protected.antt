-- ===== src/Tls/Protected.antt =====
-- crates/leshiy-tls/src/tls13/record.rs: records under a traffic key. The ciphers are the record Aead,
-- with their laws beside it; every suite's tag has 16 bytes.
pub mod RoundTrip
mod Tests
use leshiy.Prelude.{
  ℕ, ◌+◌, ◌≡◌, ◌<◌, Option, none, some, List, [], ◌∷◌, ◌++◌, length, take, drop, ltb, ◌==◌,
  if◌then◌else◌,
}
use leshiy.Prelude.Bytes.{to_be}
use leshiy.Tls.Error.{
  Outcome, failed, done, truncated, malformed, Malformed, record_too_large, record_seal,
  record_open, record_empty, ◌>>=◌,
}
use Prim.Native.Nat.{bit_xor}

-- The arguments are the key, the nonce, the associated data and the buffer.
pub record Aead : Type 0 where
  pub seal_in_place : List ℕ → List ℕ → List ℕ → List ℕ → Option (List ℕ)
  pub open_in_place : List ℕ → List ℕ → List ℕ → List ℕ → Option (List ℕ)

-- With a key of the suite's length, a buffer of a record's size is sealed, and opened again.
pub record IsAead (a : Aead) (key : List ℕ) : Type 0 where
  pub open-seal :
      (nonce aad buffer : List ℕ)
      → length buffer < 65536
      → (sealed : List ℕ) × (a.seal_in_place key nonce aad buffer ≡ some sealed)
        × (a.open_in_place key nonce aad sealed ≡ some buffer)

abbrev pub tag_len : ℕ
tag_len = 16

-- `iter_mut().zip(..)`, which ends with the shorter.
abbrev pub zip_xor : List ℕ → List ℕ → List ℕ
zip_xor [] ss = []
zip_xor (n ∷ ns) [] = n ∷ ns
zip_xor (n ∷ ns) (s ∷ ss) = bit_xor n s ∷ zip_xor ns ss

unfoldable pub nonce : List ℕ → ℕ → List ℕ
nonce iv seq = take 4 iv ++ zip_xor (drop 4 iv) (to_be 8 seq)

-- `ok_or`.
abbrev pub or_malformed : Option (List ℕ) → Malformed → Outcome (List ℕ)
or_malformed none what = failed (malformed what)
or_malformed (some buffer) what = done buffer

-- The padding's zeros are popped off, then the content type: the byte that ends what is left.
abbrev pub put_back : ℕ → Option (ℕ × List ℕ) → Option (ℕ × List ℕ)
put_back b (some inner) = some (inner.0, b ∷ inner.1)
put_back b none = if b == 0 then none else some (b, [])

abbrev pub pop_inner : List ℕ → Option (ℕ × List ℕ)
pop_inner [] = none
pop_inner (b ∷ bs) = put_back b (pop_inner bs)

abbrev pub or_empty : Option (ℕ × List ℕ) → Outcome (ℕ × List ℕ)
or_empty none = failed (malformed record_empty)
or_empty (some inner) = done inner

module _ (a : Aead) (key iv : List ℕ) (seq : ℕ) where
  unfoldable pub seal_record : ℕ → List ℕ → Outcome (List ℕ)
  seal_record inner_type plaintext =
      let inner = plaintext ++ (inner_type ∷ []) in
      let len = length inner + tag_len in
      let header = 0x17 ∷ 0x03 ∷ 0x03 ∷ to_be 2 len in
      if ltb 65535 len
      then failed (malformed record_too_large)
      else (or_malformed (a.seal_in_place key (nonce iv seq) header inner) record_seal >>= λ sealed.
          done (header ++ sealed))

  unfoldable pub open_record_parts : List ℕ → List ℕ → Outcome (ℕ × List ℕ)
  open_record_parts header body =
      or_malformed (a.open_in_place key (nonce iv seq) header body) record_open >>= λ inner.
      or_empty (pop_inner inner)

  unfoldable pub open_record : List ℕ → Outcome (ℕ × List ℕ)
  open_record bytes =
      if ltb (length bytes) 5
      then failed (truncated 5 (length bytes))
      else open_record_parts (take 5 bytes) (drop 5 bytes)
