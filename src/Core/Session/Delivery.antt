-- ===== src/Core/Session/Delivery.antt =====
-- The session delivers frames: whole, in order, and nothing else.
use leshiy.Prelude.{
  ℕ, ◌+◌, ◌≤◌, ◌<◌, ◌≡◌, refl, List, [], ◌∷◌, ◌++◌, length, ltb, All, false, take-append,
  drop-append, length-append, append_assoc, arith, le→ltb_false,
}
use leshiy.Prelude.Bytes.{to_be, from_be-to_be}
use leshiy.Core.Error.{ok, err, frame_too_large, io}
use leshiy.Core.Frame.{Frame, IsFrame, encode, max_plaintext, header_len}
use leshiy.Core.Frame.Codec.{decode-encode, length-encode}
use leshiy.Core.Session.{Noise, read_exact, read_sealed, send_frame, recv_frame, send_all, recv_all}

read_exact-append :
    (n : ℕ) (xs rest : List ℕ) → n ≡ length xs → read_exact n (xs ++ rest) ≡ ok (xs, rest)
unfolding read_exact
read_exact-append n xs rest h = rw (enough, take-append xs rest n h, drop-append xs rest n h)
  where
    enough : ltb (length (xs ++ rest)) n ≡ false
    enough = le→ltb_false _ _ (omega (arith, length-append xs rest))

-- What one side writes sealed, the other reads, and the bytes behind it stay.
pub read_sealed-write_sealed :
    (ct rest : List ℕ)
    → length ct ≤ 65535
    → read_sealed ((to_be 2 (length ct) ++ ct) ++ rest) ≡ ok (ct, rest)
unfolding read_sealed
read_sealed-write_sealed ct rest h =
    rw (read_exact-append 2 (to_be 2 (length ct)) (ct ++ rest) refl)
      (rw (from_be-to_be 2 (length ct) (omega arith)) (read_exact-append (length ct) ct rest refl))

module _ (N : Noise) where
  open N use {TransportState, write_message, read_message, Paired, seals}

  abbrev pub IsSendable : Frame → Type 0
  IsSendable f = IsFrame f × (length f.payload + header_len ≤ max_plaintext)

  -- A frame that fits is sent, and is received as it was whatever follows it.
  recv_frame-send_frame :
      (s r : TransportState) (f : Frame)
      → Paired s r
      → IsSendable f
      → (s' : TransportState) × (out : List ℕ) × (r' : TransportState) × (send_frame N s f
          ≡ ok (s', out))
        × ((rest : List ℕ) → recv_frame N r (out ++ rest) ≡ ok (r', f, rest))
        × Paired s' r'
  unfolding send_frame recv_frame
  recv_frame-send_frame s r f p (v, fits) =
      let (s', ct, r', wrote, long, opened, p') =
        seals s r (encode f) p (omega (arith, length-encode f)) in
      let fits_u16 : length ct ≤ 65535 = omega (arith, length-encode f) in
      (
        s',
        to_be 2 (length ct) ++ ct,
        r',
        ground (arith, wrote, length-encode f, fits_u16),
        λ rest. rw (read_sealed-write_sealed ct rest fits_u16, opened, decode-encode f v),
        p',
      )

  -- Frames that fit are all sent; the receiver reads the same frames in the same order, and what
  -- follows them on the wire is left.
  pub recv_all-send_all :
      (fs : List Frame) (s r : TransportState) (rest : List ℕ)
      → Paired s r
      → All IsSendable fs
      → (s' : TransportState) × (out : List ℕ) × (r' : TransportState) × (send_all N s fs
          ≡ ok (s', out))
        × (recv_all N (length fs) r (out ++ rest) ≡ ok (r', fs, rest))
        × Paired s' r'
  unfolding send_all recv_all
  recv_all-send_all [] s r rest p v = (s, [], r, refl, refl, p)
  recv_all-send_all (f ∷ fs) s r rest p (hf, hfs) =
      let (s1, out, r1, sent, got, p1) = recv_frame-send_frame s r f p hf in
      let (s2, more, r2, sent_all, got_all, p2) = recv_all-send_all fs s1 r1 rest p1 hfs in
      (
        s2,
        out ++ more,
        r2,
        rw (sent, sent_all),
        rw (append_assoc out more rest, got (more ++ rest), got_all),
        p2,
      )

  -- A frame whose encoding exceeds the plaintext bound is refused with its size, nothing is sealed.
  pub send_frame_too_large :
      (s : TransportState) (f : Frame)
      → max_plaintext < length f.payload + header_len
      → send_frame N s f ≡ err (frame_too_large (length f.payload + header_len))
  unfolding send_frame
  send_frame_too_large s f h = ground (arith, length-encode f)

-- A message that the wire does not hold whole is an I/O error.
pub read_sealed_truncated :
    (ct wire missing : List ℕ)
    → length ct ≤ 65535
    → wire ++ missing ≡ to_be 2 (length ct) ++ ct
    → 0 < length missing
    → read_sealed wire ≡ err io
unfolding read_sealed read_exact
read_sealed_truncated ct [] missing h e m = refl
read_sealed_truncated ct (a ∷ []) missing h e m = refl
read_sealed_truncated ct (a ∷ b ∷ rest) missing h e m =
    ground (arith, from_be-to_be 2 (length ct), length-append rest missing, body)
  where
    body : rest ++ missing ≡ ct
    body = cc
