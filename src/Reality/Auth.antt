-- ===== src/Reality/Auth.antt =====
-- crates/leshiy-reality/src: auth.rs, the sealing of a ClientHello in client.rs and classify_full of
-- server.rs. X25519, HKDF-SHA256 and AES-256-GCM are the record Crypto, with their laws beside it.
pub mod Layout
pub mod Accepted
pub mod Soundness
pub mod Toy
mod Tests
use leshiy.Prelude.{
  ℕ, ◌+◌, ◌-◌, ◌≡◌, min, Bool, true, false, not, ◌&&◌, Option, none, some, List, [], ◌∷◌, ◌++◌,
  length, get_or, take, drop, replicate, ltb, ◌==◌, if◌then◌else◌,
}
use leshiy.Prelude.Bytes.{to_be, from_be}
use leshiy.Tls.Error.{Outcome, failed, done}
use leshiy.Tls.ClientHello.{Extracted, ClientHelloFields, extract_client_hello_fields}

-- `encrypt` and `decrypt` take the key, the nonce, the message and the associated data.
pub record Crypto : Type 0 where
  pub public_key : List ℕ → List ℕ
  pub diffie_hellman : List ℕ → List ℕ → List ℕ
  pub hkdf : List ℕ → List ℕ → List ℕ → List ℕ
  pub encrypt : List ℕ → List ℕ → List ℕ → List ℕ → List ℕ
  pub decrypt : List ℕ → List ℕ → List ℕ → List ℕ → Option (List ℕ)

-- Both ends of an exchange compute the same secret; what is encrypted is decrypted, and is 16 bytes longer.
pub record IsCrypto (c : Crypto) : Type 0 where
  pub diffie_hellman_agrees :
      (a b : List ℕ) → c.diffie_hellman a (c.public_key b) ≡ c.diffie_hellman b (c.public_key a)
  pub decrypt-encrypt :
      (key nonce msg aad : List ℕ)
      → c.decrypt key nonce (c.encrypt key nonce msg aad) aad ≡ some msg
  pub length-encrypt :
      (key nonce msg aad : List ℕ) → length (c.encrypt key nonce msg aad) ≡ 16 + length msg

pub record AuthPayload : Type 0 where
  pub version : List ℕ
  pub unix_secs : ℕ
  pub short_id : List ℕ

unfoldable pub encode : AuthPayload → List ℕ
encode p = p.version ++ ((0 ∷ []) ++ (to_be 4 p.unix_secs ++ p.short_id))

unfoldable pub decode : List ℕ → AuthPayload
decode b = record {
  version = take 3 b;
  unix_secs = from_be (take 4 (drop 4 b));
  short_id = take 8 (drop 8 b);
}

abbrev pub hkdf_info : List ℕ
hkdf_info =
    b'l' ∷ b'e' ∷ b's' ∷ b'h' ∷ b'i' ∷ b'y' ∷ b'-' ∷ b'r' ∷ b'e' ∷ b'a' ∷ b'l' ∷ b'i' ∷ b't' ∷ b'y'
    ∷ []

abbrev pub sid_offset : ℕ
sid_offset = 39

unfoldable pub aad_from_client_hello : List ℕ → List ℕ
aad_from_client_hello ch =
    let end = min (sid_offset + get_or ch (sid_offset - 1) 0) (length ch) in
    if ltb sid_offset (length ch)
    then take sid_offset ch ++ (replicate (end - sid_offset) 0 ++ drop end ch)
    else ch

-- `ch[SID_OFFSET..end].copy_from_slice(&sid[..end - SID_OFFSET])`.
unfoldable pub write_session_id : List ℕ → List ℕ → List ℕ
write_session_id ch sid =
    let end = min (sid_offset + 32) (length ch) in
    take sid_offset ch ++ (take (end - sid_offset) sid ++ drop end ch)

pub record ServerAuthConfig : Type 0 where
  pub static_secret : List ℕ
  pub sni_allowed : List ℕ → Bool
  pub max_time_diff : ℕ

pub data ClassificationFull : Type 0 where
  authed : List ℕ → ℕ → List ℕ → ClassificationFull
  unauthed : ClassificationFull

abbrev pub sni_ok : ServerAuthConfig → Option (List ℕ) → Bool
sni_ok cfg none = false
sni_ok cfg (some sni) = cfg.sni_allowed sni

abbrev pub share_given : Option (List ℕ) → Bool
share_given none = false
share_given (some share) = true

abbrev pub share_or_dummy : Option (List ℕ) → List ℕ
share_or_dummy none = replicate 32 0x09
share_or_dummy (some share) = share

-- The padded session id.
abbrev pub padded : List ℕ → List ℕ
padded session_id = take 32 (session_id ++ replicate 32 0)

abbrev pub abs_diff : ℕ → ℕ → ℕ
abs_diff a b = (a - b) + (b - a)

unfoldable pub admit : ServerAuthConfig → ℕ → List ℕ → Bool → Option (List ℕ) → ClassificationFull
admit cfg now auth_key checks none = unauthed
admit cfg now auth_key checks (some pt) =
    let payload = decode pt in
    if checks && not (ltb cfg.max_time_diff (abs_diff now payload.unix_secs))
    then authed payload.short_id payload.unix_secs auth_key
    else unauthed

abbrev pub sixteen_bytes : Option (List ℕ) → Option (List ℕ)
sixteen_bytes none = none
sixteen_bytes (some pt) = if length pt == 16 then some pt else none

module _ (c : Crypto) where
  unfoldable pub derive_auth_key : List ℕ → List ℕ → List ℕ
  derive_auth_key shared ch_random = c.hkdf (take 20 ch_random) shared hkdf_info

  unfoldable pub seal_session_id : List ℕ → List ℕ → AuthPayload → List ℕ → List ℕ
  seal_session_id auth_key ch_random payload aad =
      c.encrypt auth_key (drop 20 ch_random) (encode payload) aad

  unfoldable pub open_session_id : List ℕ → List ℕ → List ℕ → List ℕ → Option (List ℕ)
  open_session_id auth_key ch_random session_id aad =
      sixteen_bytes (c.decrypt auth_key (drop 20 ch_random) session_id aad)

  -- The client's key, and its ClientHello with the payload sealed into the session id.
  unfoldable pub client_auth_key : List ℕ → List ℕ → List ℕ → List ℕ
  client_auth_key ephem server_public ch_random =
      derive_auth_key (c.diffie_hellman ephem server_public) ch_random

  unfoldable pub seal_client_hello : List ℕ → List ℕ → AuthPayload → List ℕ → List ℕ
  seal_client_hello auth_key ch_random payload ch =
      write_session_id ch (seal_session_id auth_key ch_random payload (aad_from_client_hello ch))

  -- Every check is computed before any is heeded.
  unfoldable pub classify_fields :
      ServerAuthConfig → ℕ → List ℕ → ClientHelloFields → ClassificationFull
  classify_fields cfg now ch fields =
      let share = share_or_dummy fields.extracted.key_share_x25519 in
      let auth_key = derive_auth_key (c.diffie_hellman cfg.static_secret share) fields.random in
      let checks =
        sni_ok cfg fields.extracted.sni
        && (length fields.session_id == 32 && share_given fields.extracted.key_share_x25519) in
      admit cfg now auth_key checks (
        open_session_id auth_key fields.random (padded fields.session_id)
          (aad_from_client_hello ch))

  abbrev pub classify_read :
      ServerAuthConfig → ℕ → List ℕ → Outcome ClientHelloFields → ClassificationFull
  classify_read cfg now ch (failed e) = unauthed
  classify_read cfg now ch (done fields) = classify_fields cfg now ch fields

  unfoldable pub classify_full :
      (List ℕ → List ℕ) → List ℕ → ServerAuthConfig → ℕ → ClassificationFull
  classify_full lossy ch cfg now = classify_read cfg now ch (extract_client_hello_fields lossy ch)
