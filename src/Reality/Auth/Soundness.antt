-- ===== src/Reality/Auth/Soundness.antt =====
-- What the server accepts is in order.
use leshiy.Prelude.{
  ℕ, ◌≤◌, ◌≡◌, refl, ap, ◌∙◌, Bool, true, ◌&&◌, Option, none, some, List, length, ◌==◌, arith,
}
use leshiy.Tls.Error.{Outcome, failed, done}
use leshiy.Tls.ClientHello.{ClientHelloFields, extract_client_hello_fields}
use leshiy.Reality.Auth.{
  Crypto, decode, aad_from_client_hello, ServerAuthConfig, authed, derive_auth_key, open_session_id,
  sni_ok, share_given, share_or_dummy, padded, abs_diff, admit, classify_fields, classify_read,
  classify_full,
}

admit-authed :
    (cfg : ServerAuthConfig) (now : ℕ) (key : List ℕ) (checks : Bool) (opened : Option (List ℕ))
    (short_id : List ℕ) (time : ℕ) (auth_key : List ℕ)
    → admit cfg now key checks opened ≡ authed short_id time auth_key
    → (pt : List ℕ) × (opened ≡ some pt)
      × (checks ≡ true)
      × (auth_key ≡ key)
      × (short_id ≡ (decode pt).short_id)
      × (time ≡ (decode pt).unix_secs)
      × (abs_diff now time ≤ cfg.max_time_diff)
unfolding admit
admit-authed cfg now key checks none short_id time auth_key h = absurd (ground arith)
admit-authed cfg now key checks (some pt) short_id time auth_key h =
    (pt, refl, ground arith, ground arith, ground arith, ground arith, ground arith)

checks-lem :
    (cfg : ServerAuthConfig) (sni share : Option (List ℕ)) (n : ℕ)
    → (sni_ok cfg sni && (n == 32 && share_given share)) ≡ true
    → (name : List ℕ) × (given : List ℕ) × (sni ≡ some name)
      × (share ≡ some given)
      × (cfg.sni_allowed name ≡ true)
      × (n ≡ 32)
checks-lem cfg none share n h = absurd (ground arith)
checks-lem cfg (some name) none n h = absurd (ground arith)
checks-lem cfg (some name) (some given) n h = (name, given, refl, refl, ground arith, ground arith)

classify_read-authed :
    (c : Crypto) (cfg : ServerAuthConfig) (now : ℕ) (ch : List ℕ) (o : Outcome ClientHelloFields)
    (short_id : List ℕ) (time : ℕ) (auth_key : List ℕ)
    → classify_read c cfg now ch o ≡ authed short_id time auth_key
    → (fields : ClientHelloFields) × (o ≡ done fields)
      × (classify_fields c cfg now ch fields ≡ authed short_id time auth_key)
classify_read-authed c cfg now ch (failed e) short_id time auth_key h = absurd (ground arith)
classify_read-authed c cfg now ch (done fields) short_id time auth_key h = (fields, refl, h)

-- A hello that is accepted could be read, names an allowed server and has a key share and a session
-- id of 32 bytes; the key is that of the share, it opens the session id, and the payload's time is
-- near enough.
pub classify_full-authed :
    (c : Crypto) (lossy : List ℕ → List ℕ) (ch : List ℕ) (cfg : ServerAuthConfig) (now : ℕ)
    (short_id : List ℕ) (time : ℕ) (auth_key : List ℕ)
    → classify_full c lossy ch cfg now ≡ authed short_id time auth_key
    → (fields : ClientHelloFields) × (share : List ℕ) × (name : List ℕ) × (pt : List ℕ)
      × (extract_client_hello_fields lossy ch ≡ done fields)
      × (fields.extracted.key_share_x25519 ≡ some share)
      × (fields.extracted.sni ≡ some name)
      × (cfg.sni_allowed name ≡ true)
      × (length fields.session_id ≡ 32)
      × (auth_key ≡ derive_auth_key c (c.diffie_hellman cfg.static_secret share) fields.random)
      × (open_session_id c auth_key fields.random
            (padded fields.session_id)
            (aad_from_client_hello ch)
          ≡ some pt)
      × (short_id ≡ (decode pt).short_id)
      × (time ≡ (decode pt).unix_secs)
      × (abs_diff now time ≤ cfg.max_time_diff)
unfolding classify_full classify_fields
classify_full-authed c lossy ch cfg now short_id time auth_key h =
    let read =
      classify_read-authed c cfg now ch (extract_client_hello_fields lossy ch) short_id time
        auth_key h in
    let fields = read.0 in
    let found = fields.extracted in
    let key =
      derive_auth_key c (c.diffie_hellman cfg.static_secret (share_or_dummy found.key_share_x25519))
        fields.random in
    let ok =
      admit-authed cfg now key
        (sni_ok cfg found.sni
          && (length fields.session_id == 32 && share_given found.key_share_x25519))
        (open_session_id c key fields.random (padded fields.session_id) (aad_from_client_hello ch))
        short_id time auth_key read.2 in
    let checks = checks-lem cfg found.sni found.key_share_x25519 (length fields.session_id) ok.2 in
    let same : auth_key ≡ key = ok.3 in
    let keyed : key
        ≡ derive_auth_key c (c.diffie_hellman cfg.static_secret checks.1) fields.random =
      ap
        (λ (o : Option (List ℕ)).
          derive_auth_key c (c.diffie_hellman cfg.static_secret (share_or_dummy o)) fields.random)
        checks.3 in
    let opened =
      ap
        (λ (k : List ℕ).
          open_session_id c k fields.random (padded fields.session_id) (aad_from_client_hello ch))
        same
      ∙ ok.1 in
    (
      fields,
      checks.1,
      checks.0,
      ok.0,
      read.1,
      checks.3,
      checks.2,
      checks.4,
      checks.5,
      same ∙ keyed,
      opened,
      ok.4,
      ok.5,
      ok.6,
    )
