-- ===== src/Tls/Error.antt =====
-- crates/leshiy-tls/src/error.rs, with what the code of this folder gives; an error's text is the
-- case that wrote it. The result type, and the chaining of `?`.
use leshiy.Prelude.{ℕ, Bool, true, false}

-- The cases of `Malformed`; that of a record shows its length.
pub data Malformed : Type 0 where
  record_length : ℕ → Malformed
  server_hello_type server_hello_truncated server_hello_key_share : Malformed
  certificate_type certificate_empty certificate_overrun : Malformed
  certificate_verify_bad finished_type : Malformed
  client_hello_type : Malformed
  client_hello_msg_type client_hello_odd_suites : ℕ → Malformed
  client_hello_extension_header client_hello_extension_body : Malformed
  record_too_large record_seal record_open record_empty : Malformed

pub data TlsError : Type 0 where
  io : TlsError
  truncated : ℕ → ℕ → TlsError
  malformed : Malformed → TlsError
  alert : ℕ → ℕ → TlsError

pub data Outcome {ℓ} (A : Type ℓ) : Type ℓ where
  failed : TlsError → Outcome A
  done : A → Outcome A

infixl 5 ◌>>=◌ ◌>>◌
abbrev pub ◌>>=◌ {ℓ κ} : {A : Type ℓ} {B : Type κ} → Outcome A → (A → Outcome B) → Outcome B
failed e >>= next = failed e
done a >>= next = next a

abbrev pub ◌>>◌ {ℓ} : {B : Type ℓ} → Outcome (Unit {0}) → Outcome B → Outcome B
first >> second = first >>= λ _. second

-- An early return with an error.
abbrev pub refuse_if : Bool → TlsError → Outcome (Unit {0})
refuse_if true e = failed e
refuse_if false e = done tt
