-- ===== src/Core/Frame.antt =====
-- crates/leshiy-core/src/frame.rs: the plaintext frame, `[u32 stream id | u8 type | payload]`.
pub mod Codec
mod Tests
use leshiy.Prelude.{
  ℕ, suc, ◌+◌, ◌-◌, ◌*◌, ◌/◌, ◌^◌, ◌≤◌, ◌<◌, ◌≡◌, Bool, not, ◌++◌, List, [], ◌∷◌, length, get_or,
  drop, ltb, ◌==◌, bit_and,
}
use leshiy.Prelude.Bytes.{IsByte, IsBytes, to_be, from_be}
use leshiy.Core.Error.{Result, ok, ◌>>=◌, ◌>>◌, fail_if, protocol, short_frame}

abbrev pub header_len : ℕ
header_len = 5

-- A Noise message is at most 65535 bytes, 16 of them the tag.
abbrev pub max_plaintext : ℕ
max_plaintext = 65535 - 16

-- What fits one TLS record of 2^14 bytes beside the header and the inner content type.
abbrev pub max_frame_payload : ℕ
max_frame_payload = 16384 - header_len - 1

abbrev pub critical_bit : ℕ
critical_bit = 0x80

pub data FrameType : Type 0 where
  hello bye open_stream data_bytes close datagram ping pong window_update : FrameType

-- The discriminant, `FrameType::X as u8`.
abbrev pub code : FrameType → ℕ
code hello = 0
code bye = 1
code open_stream = 2
code data_bytes = 3
code close = 4
code datagram = 5
code ping = 6
code pong = 7
code window_update = 8

unfoldable pub is_critical : ℕ → Bool
is_critical ftype = not (bit_and ftype critical_bit == 0)

-- `ftype & !CRITICAL_BIT` on a byte.
unfoldable pub base_type : ℕ → ℕ
base_type ftype = bit_and ftype (255 - critical_bit)

pub record Frame : Type 0 where
  pub stream_id : ℕ
  pub ftype : ℕ
  pub payload : List ℕ

-- The fields are in the ranges of their types.
pub record IsFrame (f : Frame) : Type 0 where
  pub id_fits : f.stream_id < 2 ^ 32
  pub type_fits : f.ftype < 256
  pub payload_bytes : IsBytes f.payload

pub encode : Frame → List ℕ
encode f = to_be 4 f.stream_id ++ (f.ftype ∷ f.payload)

-- Every index is in range, since the caller has checked the length.
frame_of : List ℕ → Frame
frame_of buf = record {
  stream_id = from_be (get_or buf 0 0 ∷ get_or buf 1 0 ∷ get_or buf 2 0 ∷ get_or buf 3 0 ∷ []);
  ftype = get_or buf 4 0;
  payload = drop header_len buf;
}

unfoldable pub decode_from_bytes : List ℕ → Result Frame
unfolding frame_of
decode_from_bytes buf = do
  fail_if (ltb (length buf) header_len) (protocol short_frame)
  ok (frame_of buf)

-- `decode` copies its input into an owned buffer first.
unfoldable pub decode : List ℕ → Result Frame
unfolding decode_from_bytes
decode buf = decode_from_bytes buf
