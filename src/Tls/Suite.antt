-- ===== src/Tls/Suite.antt =====
-- crates/leshiy-tls/src/tls13/suite.rs: the cipher suites, and the running transcript. The hashes and
-- the ciphers of the crates are the record Primitives, with their laws beside it.
use leshiy.Prelude.{ℕ, ◌≡◌, ◌<◌, Option, none, some, List, [], ◌++◌, length, ◌==◌, if◌then◌else◌}
use leshiy.Tls.Protected.{Aead, IsAead}

-- A hash with HKDF and HMAC over it: `extract salt ikm`, `expand prk info n`, `hmac key msg`.
pub record Hash : Type 0 where
  pub digest : List ℕ → List ℕ
  pub extract : List ℕ → List ℕ → List ℕ
  pub expand : List ℕ → List ℕ → ℕ → List ℕ
  pub hmac : List ℕ → List ℕ → List ℕ

pub record Primitives : Type 0 where
  pub sha256 : Hash
  pub sha384 : Hash
  pub aes128_gcm : Aead
  pub aes256_gcm : Aead
  pub chacha20_poly1305 : Aead

pub data CipherSuite : Type 0 where
  aes128_gcm_sha256 aes256_gcm_sha384 chacha20_poly1305_sha256 : CipherSuite

unfoldable pub from_u16 : ℕ → Option CipherSuite
from_u16 v =
    if v == 0x1301
    then some aes128_gcm_sha256
    else if v == 0x1302
    then some aes256_gcm_sha384
    else if v == 0x1303
    then some chacha20_poly1305_sha256
    else none

abbrev pub to_u16 : CipherSuite → ℕ
to_u16 aes128_gcm_sha256 = 0x1301
to_u16 aes256_gcm_sha384 = 0x1302
to_u16 chacha20_poly1305_sha256 = 0x1303

abbrev pub hash_len : CipherSuite → ℕ
hash_len aes128_gcm_sha256 = 32
hash_len aes256_gcm_sha384 = 48
hash_len chacha20_poly1305_sha256 = 32

abbrev pub key_len : CipherSuite → ℕ
key_len aes128_gcm_sha256 = 16
key_len aes256_gcm_sha384 = 32
key_len chacha20_poly1305_sha256 = 32

-- The hash that the suite's functions dispatch to.
abbrev pub hash_of : Primitives → CipherSuite → Hash
hash_of prims aes128_gcm_sha256 = prims.sha256
hash_of prims aes256_gcm_sha384 = prims.sha384
hash_of prims chacha20_poly1305_sha256 = prims.sha256

-- The cipher that aead_seal_in_place and aead_open_in_place dispatch to.
abbrev pub aead_of : Primitives → CipherSuite → Aead
aead_of prims aes128_gcm_sha256 = prims.aes128_gcm
aead_of prims aes256_gcm_sha384 = prims.aes256_gcm
aead_of prims chacha20_poly1305_sha256 = prims.chacha20_poly1305

-- HKDF gives the length asked for, a MAC has at most 64 bytes, and a cipher accepts its key length.
pub record IsPrimitives (prims : Primitives) : Type 0 where
  pub length-expand :
      (suite : CipherSuite) (prk info : List ℕ) (n : ℕ)
      → length ((hash_of prims suite).expand prk info n) ≡ n
  pub length-hmac :
      (suite : CipherSuite) (key msg : List ℕ) → length ((hash_of prims suite).hmac key msg) < 65
  pub aead-IsAead :
      (suite : CipherSuite) (key : List ℕ)
      → length key ≡ key_len suite
      → IsAead (aead_of prims suite) key

pub record Transcript : Type 0 where
  pub suite : CipherSuite
  pub buf : List ℕ

abbrev pub new : CipherSuite → Transcript
new suite = record { suite = suite; buf = [] }

abbrev pub update : Transcript → List ℕ → Transcript
update tr msg = record tr { buf = tr.buf ++ msg }

abbrev pub transcript_hash : Primitives → Transcript → List ℕ
transcript_hash prims tr = (hash_of prims tr.suite).digest tr.buf
