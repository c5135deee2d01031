-- ===== src/Tls/Protected/RoundTrip.antt =====
-- What is sealed is opened under the same key and sequence number.
use leshiy.Prelude.{
  ℕ, ◌+◌, ◌≤◌, ◌<◌, ◌≡◌, refl, ap, false, Bool-cases, ◌⊎◌, inl, inr, some, List, [], ◌∷◌, ◌++◌,
  length, length-append, ltb, ◌==◌, arith,
}
use leshiy.Prelude.Bytes.{to_be}
use leshiy.Tls.Error.{failed, done, malformed, record_too_large}
use leshiy.Tls.Protected.{
  Aead, IsAead, tag_len, nonce, put_back, pop_inner, seal_record, open_record_parts, open_record,
}

pop_inner-append :
    (plaintext : List ℕ) (inner_type : ℕ)
    → 0 < inner_type
    → pop_inner (plaintext ++ (inner_type ∷ [])) ≡ some (inner_type, plaintext)
pop_inner-append [] inner_type h =
    let other : (inner_type == 0) ≡ false = ground (arith, h) in rw other refl
pop_inner-append (b ∷ plaintext) inner_type h =
    ap (put_back b) (pop_inner-append plaintext inner_type h)

-- Sealing refuses a plaintext whose record would not fit the length field, and no other; what it
-- gives is opened, under the same key and sequence number, to the content type, when that is not 0,
-- and to the plaintext, zeros at its end included.
pub open_record-seal_record :
    (a : Aead) (key iv plaintext : List ℕ) (seq inner_type : ℕ)
    → IsAead a key
    → 0 < inner_type
    → (65518 < length plaintext)
        × (seal_record a key iv seq inner_type plaintext ≡ failed (malformed record_too_large))
      ⊎ ((bytes : List ℕ) × (length plaintext ≤ 65518)
          × (seal_record a key iv seq inner_type plaintext ≡ done bytes)
          × (open_record a key iv seq bytes ≡ done (inner_type, plaintext)))
unfolding seal_record open_record open_record_parts
open_record-seal_record a key iv plaintext seq inner_type law h =
    let inner = plaintext ++ (inner_type ∷ []) in
    let len = length inner + tag_len in
    let header = 0x17 ∷ 0x03 ∷ 0x03 ∷ to_be 2 len in
    let size = length-append plaintext (inner_type ∷ []) in
    elim (Bool-cases (ltb 65535 len)) [
      | inl long ↦ inl (ground (arith, long, size), rw long refl)
      | inr fits ↦
          let works = law.open-seal (nonce iv seq) header inner (ground (arith, fits)) in
          let whole : ltb (length (header ++ works.0)) 5 ≡ false = ground arith in
          inr (
            header ++ works.0,
            ground (arith, fits, size),
            rw (fits, works.1) refl,
            rw (whole, works.2, pop_inner-append plaintext inner_type h) refl,
          )
    ]
