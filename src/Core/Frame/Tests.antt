-- ===== src/Core/Frame/Tests.antt =====
-- Runs of the codec, and its theorems at concrete frames.
use leshiy.Prelude.{◌≡◌, [], ◌∷◌, arith}
use leshiy.Core.Error.{ok}
use leshiy.Core.Frame.{Frame, encode, decode}
use leshiy.Core.Frame.Codec.{decode-encode}

abbrev a_frame : Frame
a_frame = record { stream_id = 0x01020304; ftype = 3; payload = b'h' ∷ b'i' ∷ [] }

decode-encode_example : decode (encode a_frame) ≡ ok a_frame
decode-encode_example = decode-encode a_frame (omega arith)
