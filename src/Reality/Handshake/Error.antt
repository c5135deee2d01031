-- ===== src/Reality/Handshake/Error.antt =====
-- crates/leshiy-reality/src/error.rs, with the cases of the handshake: an error's text is the case
-- that wrote it. A panic is a result of its own.
use leshiy.Prelude.{Bool, true, false, Option, none, some}
use leshiy.Tls.Error.{TlsError, Outcome, failed, done}

pub data HandshakeFault : Type 0 where
  bad_suite no_mlkem_share mlkem_encapsulate_failed no_x25519_share : HandshakeFault
  expected_handshake client_finished_mismatch : HandshakeFault
  expected_sh_record bad_mlkem_share_length mlkem_decapsulate_failed bad_key_share : HandshakeFault
  no_ed25519_key identity_mismatch cert_verify_failed server_finished_mismatch : HandshakeFault

pub data RealityError : Type 0 where
  tls : TlsError → RealityError
  malformed : HandshakeFault → RealityError

pub data Attempt {ℓ} (A : Type ℓ) : Type ℓ where
  refused : RealityError → Attempt A
  panicked : Attempt A
  got : A → Attempt A

infixl 5 ◌>>=◌
abbrev pub ◌>>=◌ {ℓ κ} : {A : Type ℓ} {B : Type κ} → Attempt A → (A → Attempt B) → Attempt B
refused e >>= next = refused e
panicked >>= next = panicked
got a >>= next = next a

-- `map_err(RealityError::Tls)?`
abbrev pub tls_err {ℓ} : {A : Type ℓ} → Outcome A → Attempt A
tls_err (failed e) = refused (tls e)
tls_err (done a) = got a

abbrev pub ok_or {ℓ} : {A : Type ℓ} → Option A → HandshakeFault → Attempt A
ok_or none fault = refused (malformed fault)
ok_or (some a) fault = got a

-- `expect`, or an index out of range.
abbrev pub or_panic {ℓ} : {A : Type ℓ} → Option A → Attempt A
or_panic none = panicked
or_panic (some a) = got a

-- An early return with an error.
abbrev pub refuse_if : Bool → HandshakeFault → Attempt (Unit {0})
refuse_if true fault = refused (malformed fault)
refuse_if false fault = got tt
