-- ===== src/Core/Session/Tests.antt =====
-- A cipher that meets the laws asked of snow, and the theorems with it.
use leshiy.Prelude.{
  ℕ, suc, ◌+◌, ◌-◌, ◌≤◌, ◌≡◌, refl, List, [], ◌∷◌, ◌++◌, length, take, drop, replicate, ◌==◌,
  ==_refl, if◌then◌else◌, Option, none, some, length-replicate, ap, take-append, drop-append,
  length-append, arith,
}
use leshiy.Prelude.Bytes.{to_be, from_be}
use leshiy.Core.Error.{ok, err, io, frame_too_large}
use leshiy.Core.Frame.{Frame}
use leshiy.Core.Session.{Noise, send_frame, send_all, recv_all, read_sealed}
use leshiy.Core.Session.Delivery.{
  recv_all-send_all, send_frame_too_large, read_sealed-write_sealed, read_sealed_truncated,
}

-- The state is the nonce, the ciphertext is the plaintext with the nonce as its tag.
tag_write : ℕ → List ℕ → Option (ℕ × List ℕ)
tag_write n pt = some (suc n, pt ++ to_be 16 n)

tag_read : ℕ → List ℕ → Option (ℕ × List ℕ)
tag_read n ct =
    let k = length ct - 16 in
    if from_be (drop k ct) == from_be (to_be 16 n) then some (suc n, take k ct) else none

tag_seals :
    (s r : ℕ) (pt : List ℕ)
    → s ≡ r
    → length pt ≤ 65519
    → (s' : ℕ) × (ct : List ℕ) × (r' : ℕ) × (tag_write s pt ≡ some (s', ct))
      × (length ct ≡ length pt + 16)
      × (tag_read r ct ≡ some (r', pt))
      × (s' ≡ r')
unfolding tag_write tag_read
tag_seals s r pt e h = (
  suc s,
  pt ++ to_be 16 s,
  suc r,
  refl,
  size,
  rw (
    e,
    drop-append pt (to_be 16 r) _ (cut r),
    take-append pt (to_be 16 r) _ (cut r),
    ==_refl (from_be (to_be 16 r)),
  ),
  ap suc e,
)
  where
    size : length (pt ++ to_be 16 s) ≡ length pt + 16
    size = omega (arith, length-append pt (to_be 16 s))

    cut : (n : ℕ) → length (pt ++ to_be 16 n) - 16 ≡ length pt
    cut n = omega (arith, length-append pt (to_be 16 n))

abbrev tagged : Noise
tagged = record {
  TransportState = ℕ;
  write_message = tag_write;
  read_message = tag_read;
  Paired = λ s r. s ≡ r;
  seals = tag_seals;
}

abbrev two_frames : List Frame
two_frames =
    record { stream_id = 1; ftype = 2; payload = b'a' ∷ b'b' ∷ [] }
    ∷ record { stream_id = 1; ftype = 3; payload = [] }
    ∷ []

recv_all-send_all_example :
    (s' : ℕ) × (out : List ℕ) × (r' : ℕ) × (send_all tagged 5 two_frames ≡ ok (s', out))
    × (recv_all tagged 2 5 (out ++ (9 ∷ [])) ≡ ok (r', two_frames, 9 ∷ []))
    × (s' ≡ r')
recv_all-send_all_example = recv_all-send_all tagged two_frames 5 5 (9 ∷ []) refl (omega arith)

abbrev huge : Frame
huge = record { stream_id = 1; ftype = 3; payload = replicate 65515 0 }

send_frame_too_large_example :
    send_frame tagged 0 huge ≡ err (frame_too_large (length huge.payload + 5))
send_frame_too_large_example =
    send_frame_too_large tagged 0 huge (omega (arith, length-replicate {0} {A = ℕ} 65515 0))

read_sealed-write_sealed_example : read_sealed (0 ∷ 2 ∷ 7 ∷ 8 ∷ 9 ∷ []) ≡ ok (7 ∷ 8 ∷ [], 9 ∷ [])
read_sealed-write_sealed_example = read_sealed-write_sealed (7 ∷ 8 ∷ []) (9 ∷ []) (omega arith)

read_sealed_truncated_example : read_sealed (0 ∷ 2 ∷ 7 ∷ []) ≡ err io
read_sealed_truncated_example =
    read_sealed_truncated (7 ∷ 8 ∷ []) (0 ∷ 2 ∷ 7 ∷ []) (8 ∷ []) (omega arith) refl (omega arith)
