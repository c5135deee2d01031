-- ===== src/Core/Session.antt =====
-- crates/leshiy-core/src/session.rs: frames sealed by Noise and sent with a length in front.
-- The wire is the list of bytes that are under way; a read that meets its end is an I/O error.
-- The cipher (the crate snow) is the parameter `Noise`.
pub mod Delivery
mod Tests
use leshiy.Prelude.{
  ℕ, ◌+◌, ◌≤◌, ◌<◌, ◌≡◌, Bool, List, [], ◌∷◌, ◌++◌, length, get_or, take, drop, ltb, Option, none,
  some,
}
use leshiy.Prelude.Bytes.{IsBytes, to_be, from_be}
use leshiy.Core.Error.{Result, ok, err, ◌>>=◌, ◌>>◌, fail_if, frame_too_large, noise, io}
use leshiy.Core.Frame.{Frame, encode, decode, max_plaintext}

-- snow's `TransportState`: each direction has a nonce that its calls advance. `none` is its error.
pub record Noise : Type 1 where
  pub TransportState : Type 0
  pub write_message : TransportState → List ℕ → Option (TransportState × List ℕ)
  pub read_message : TransportState → List ℕ → Option (TransportState × List ℕ)
  -- The second state reads next what the first writes next.
  pub Paired : TransportState → TransportState → Type 0
  -- What snow documents: a plaintext that leaves room for the 16-byte tag is sealed into that many
  -- bytes more, and the paired state opens it.
  pub seals :
      (s r : TransportState) (pt : List ℕ)
      → Paired s r
      → length pt ≤ max_plaintext
      → (s' : TransportState) × (ct : List ℕ) × (r' : TransportState) × (write_message s pt
          ≡ some (s', ct))
        × (length ct ≡ length pt + 16)
        × (read_message r ct ≡ some (r', pt))
        × Paired s' r'

-- `read_exact` of that many bytes, and the bytes after them.
unfoldable pub read_exact : ℕ → List ℕ → Result (List ℕ × List ℕ)
read_exact n wire = do fail_if (ltb (length wire) n) io; ok (take n wire, drop n wire)

unfoldable pub read_sealed : List ℕ → Result (List ℕ × List ℕ)
unfolding read_exact
read_sealed wire = do
  (len, rest) ← read_exact 2 wire
  read_exact (from_be (get_or len 0 0 ∷ get_or len 1 0 ∷ [])) rest

-- The bytes that go to the wire. `u16::try_from` fails above 65535.
unfoldable pub write_sealed : List ℕ → Result (List ℕ)
write_sealed ct = do
  fail_if (ltb 65535 (length ct)) (frame_too_large (length ct))
  ok (to_be 2 (length ct) ++ ct)

abbrev pub or_noise {ℓ} : {A : Type ℓ} → Option A → Result A
or_noise none = err noise
or_noise (some a) = ok a

module _ (N : Noise) where
  open N use {TransportState, write_message, read_message}

  -- `Session::write_frame` and `SessionWriter::send_frame`: the new state, and what is written.
  pub send_frame : TransportState → Frame → Result (TransportState × List ℕ)
  unfolding write_sealed
  send_frame s frame = do
    let pt = encode frame
    fail_if (ltb max_plaintext (length pt)) (frame_too_large (length pt))
    (s', ct) ← or_noise (write_message s pt)
    sealed ← write_sealed ct
    ok (s', sealed)

  -- `Session::read_frame` and `SessionReader::recv_frame`: the new state, the frame, the rest.
  pub recv_frame : TransportState → List ℕ → Result (TransportState × Frame × List ℕ)
  unfolding read_sealed
  recv_frame r wire = do
    (ct, rest) ← read_sealed wire
    (r', pt) ← or_noise (read_message r ct)
    frame ← decode pt
    ok (r', frame, rest)

  -- Frames sent one after the other, and that many received.
  pub send_all : TransportState → List Frame → Result (TransportState × List ℕ)
  send_all s [] = ok (s, [])
  send_all s (f ∷ fs) = do
    (s', out) ← send_frame s f
    (s'', more) ← send_all s' fs
    ok (s'', out ++ more)

  pub recv_all : ℕ → TransportState → List ℕ → Result (TransportState × List Frame × List ℕ)
  recv_all ℕ.zero r wire = ok (r, [], wire)
  recv_all (ℕ.suc n) r wire = do
    (r', f, rest) ← recv_frame r wire
    (r'', fs, rest') ← recv_all n r' rest
    ok (r'', f ∷ fs, rest')
