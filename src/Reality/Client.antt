-- ===== src/Reality/Client.antt =====
-- crates/leshiy-reality/src/client.rs: build_authed_client_hello. What the function draws is the
-- record Draws: random bytes, and the key pair that ML-KEM generates.
pub mod Admitted
mod Tests
use leshiy.Prelude.{ℕ, List, [], ◌∷◌}
use leshiy.Tls.Camouflage.{Digest}
use leshiy.Tls.Fingerprint.{Profile}
use leshiy.Tls.Builder.{HelloInput, build_client_hello_with_entropy}
use leshiy.Reality.Auth.{Crypto, AuthPayload, client_auth_key, seal_client_hello}

pub record ClientAuthConfig : Type 0 where
  pub server_public : List ℕ
  pub short_id : List ℕ
  pub sni : List ℕ

pub record Draws : Type 0 where
  pub ephem_bytes : List ℕ
  pub mlkem_dk : List ℕ
  pub mlkem_ek : List ℕ
  pub ch_random : List ℕ
  pub entropy : List ℕ

abbrev pub leshiy_version : List ℕ
leshiy_version = 1 ∷ 0 ∷ 0 ∷ []

abbrev pub hello_input : Crypto → ClientAuthConfig → Draws → HelloInput
hello_input c cfg draws = record {
  sni = cfg.sni;
  x25519_pub = c.public_key draws.ephem_bytes;
  mlkem_ek = draws.mlkem_ek;
  random = draws.ch_random;
  entropy = draws.entropy;
}

abbrev pub auth_payload : ClientAuthConfig → ℕ → AuthPayload
auth_payload cfg now_secs = record {
  version = leshiy_version;
  unix_secs = now_secs;
  short_id = cfg.short_id;
}

-- The hello, the ephemeral secret and the decapsulation key.
unfoldable pub build_authed_client_hello :
    Crypto → Digest → Profile → ClientAuthConfig → ℕ → Draws → List ℕ × List ℕ × List ℕ
build_authed_client_hello c sha256 profile cfg now_secs draws =
    let auth_key = client_auth_key c draws.ephem_bytes cfg.server_public draws.ch_random in
    let ch = build_client_hello_with_entropy sha256 profile (hello_input c cfg draws) in
    (
      seal_client_hello c auth_key draws.ch_random (auth_payload cfg now_secs) ch,
      draws.ephem_bytes,
      draws.mlkem_dk,
    )
