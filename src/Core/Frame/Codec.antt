-- ===== src/Core/Frame/Codec.antt =====
-- The frame codec: round trips both ways, the error branch, and the split of the type byte.
use leshiy.Prelude.{
  ℕ, ◌+◌, ◌≤◌, ◌<◌, ◌≡◌, ◌⊎◌, inl, inr, Bool-cases, ltb, ltb→lt, ltb_false→le, true, false, List,
  [], ◌∷◌, length, arith,
}
use leshiy.Prelude.Bits.{low_seven_bits, top_bit}
use leshiy.Prelude.Bytes.{IsBytes, from_be-to_be}
use leshiy.Core.Error.{ok, err, protocol, short_frame}
use leshiy.Core.Frame.{
  Frame, IsFrame, frame_of, header_len, encode, decode, is_critical, base_type, critical_bit,
}

pub length-encode : (f : Frame) → length (encode f) ≡ length f.payload + header_len
unfolding encode
length-encode f = omega arith

-- A frame whose fields fit their types decodes to itself.
pub decode-encode : (f : Frame) → IsFrame f → decode (encode f) ≡ ok f
unfolding decode encode
decode-encode f v = ground (arith, from_be-to_be 4 f.stream_id)

-- What decodes is the encoding of the result: no two inputs give one frame.
pub encode-decode :
    (buf : List ℕ) (f : Frame) → IsBytes buf → decode buf ≡ ok f → (encode f ≡ buf) × IsFrame f
unfolding decode encode
encode-decode [] f h e = cc
encode-decode (a ∷ []) f h e = cc
encode-decode (a ∷ b ∷ []) f h e = cc
encode-decode (a ∷ b ∷ c ∷ []) f h e = cc
encode-decode (a ∷ b ∷ c ∷ d ∷ []) f h e = cc
encode-decode (a ∷ b ∷ c ∷ d ∷ t ∷ rest) f h e = ground arith

-- Decoding fails exactly on inputs shorter than a header, and then with one error.
pub decode_cases :
    (buf : List ℕ)
    → ((length buf < header_len) × (decode buf ≡ err (protocol short_frame)))
      ⊎ ((header_len ≤ length buf) × ((f : Frame) × (decode buf ≡ ok f)))
unfolding decode
decode_cases buf = elim (Bool-cases (ltb (length buf) header_len)) [
  | inl short ↦ inl (ltb→lt _ _ short, rw short)
  | inr long ↦ inr (ltb_false→le _ _ long, (frame_of buf, rw long))
]

-- The type byte is the base type, and 128 more when the frame is critical.
pub base_type-is_critical :
    (b : ℕ)
    → b < 256
    → (base_type b < 128)
      × ((is_critical b ≡ false) × (b ≡ base_type b)
          ⊎ (is_critical b ≡ true) × (b ≡ base_type b + critical_bit))
unfolding base_type is_critical
base_type-is_critical b h = ground (arith, low_seven_bits b, top_bit b h)
