-- ===== src/Reality/Auth/Accepted.antt =====
-- What the client seals the server accepts.
use leshiy.Prelude.{
  ℕ, ◌+◌, ◌≤◌, ◌≡◌, refl, ap, ◌∙◌, true, false, some, List, ◌∷◌, length, drop, replicate,
  take-append, ltb, ◌==◌, arith,
}
use leshiy.Tls.Error.{done}
use leshiy.Tls.ClientHello.{Extracted, ClientHelloFields, after_session_id}
use leshiy.Reality.Auth.{
  Crypto, IsCrypto, AuthPayload, encode, decode, aad_from_client_hello, write_session_id,
  ServerAuthConfig, authed, derive_auth_key, seal_session_id, open_session_id, client_auth_key,
  seal_client_hello, padded, abs_diff, admit, classify_fields, classify_full,
}
use leshiy.Reality.Auth.Layout.{
  hello_of, IsPayload, length-encode, decode-encode, write_session_id-hello_of, aad-hello_of,
  extract-hello_of,
}

-- The session id that the client seals is opened under the server's key.
open-seal_session_id :
    (c : Crypto) (auth_key ch_random aad : List ℕ) (p : AuthPayload)
    → IsCrypto c
    → IsPayload p
    → (open_session_id c auth_key ch_random
          (padded (seal_session_id c auth_key ch_random p aad))
          aad
        ≡ some (encode p))
      × (32 ≡ length (seal_session_id c auth_key ch_random p aad))
unfolding open_session_id seal_session_id
open-seal_session_id c auth_key ch_random aad p law v =
    let sid = seal_session_id c auth_key ch_random p aad in
    let size : 32 ≡ length sid =
      omega (
        arith,
        law.length-encrypt auth_key (drop 20 ch_random) (encode p) aad,
        length-encode p v,
      ) in
    let sixteen : (length (encode p) == 16) ≡ true = ground (arith, length-encode p v) in
    (
      rw
          (
            take-append sid (replicate 32 0) 32 size,
            law.decrypt-encrypt auth_key (drop 20 ch_random) (encode p) aad,
            sixteen,
          )
          refl,
      size,
    )

-- When every condition holds, a hello that was read is accepted.
classify_fields-authed :
    (c : Crypto) (cfg : ServerAuthConfig) (now : ℕ) (ch : List ℕ) (fields : ClientHelloFields)
    (share name pt key : List ℕ)
    → fields.extracted.key_share_x25519 ≡ some share
    → fields.extracted.sni ≡ some name
    → cfg.sni_allowed name ≡ true
    → 32 ≡ length fields.session_id
    → derive_auth_key c (c.diffie_hellman cfg.static_secret share) fields.random ≡ key
    → open_session_id c key fields.random (padded fields.session_id) (aad_from_client_hello ch)
      ≡ some pt
    → abs_diff now (decode pt).unix_secs ≤ cfg.max_time_diff
    → classify_fields c cfg now ch fields ≡ authed (decode pt).short_id (decode pt).unix_secs key
unfolding classify_fields admit
classify_fields-authed c cfg now ch fields share name pt key given named allowed size derived opened
      near =
    let whole : (length fields.session_id == 32) ≡ true = ground (arith, size) in
    let fresh : ltb cfg.max_time_diff (abs_diff now (decode pt).unix_secs) ≡ false =
      ground (arith, near) in
    rw (given, named, allowed, whole, derived, opened, fresh) refl

-- A client that knows the server's public key, sends its own in a hello that the server can read,
-- names an allowed server and whose clock is near enough is accepted, with its short id and time and
-- the key it has itself derived, whatever the session id was before.
pub classify_full-seal_client_hello :
    (c : Crypto) (lossy : List ℕ → List ℕ) (cfg : ServerAuthConfig)
    (ephem random sid rest name : List ℕ) (l1 l2 l3 v1 v2 now : ℕ) (found : Extracted)
    (p : AuthPayload)
    → IsCrypto c
    → IsPayload p
    → 32 ≡ length random
    → 32 ≡ length sid
    → after_session_id lossy (71 + length rest) rest ≡ done found
    → found.key_share_x25519 ≡ some (c.public_key ephem)
    → found.sni ≡ some name
    → cfg.sni_allowed name ≡ true
    → abs_diff now p.unix_secs ≤ cfg.max_time_diff
    → classify_full c lossy
        (seal_client_hello c
          (client_auth_key c ephem (c.public_key cfg.static_secret) random)
          random
          p
          (hello_of (1 ∷ l1 ∷ l2 ∷ l3 ∷ v1 ∷ v2 ∷ random) sid rest))
        cfg
        now
      ≡ authed p.short_id p.unix_secs
          (client_auth_key c ephem (c.public_key cfg.static_secret) random)
unfolding classify_full seal_client_hello client_auth_key
classify_full-seal_client_hello c lossy cfg ephem random sid rest name l1 l2 l3 v1 v2 now found p
      law v r s e share sni allowed near =
    let front = 1 ∷ l1 ∷ l2 ∷ l3 ∷ v1 ∷ v2 ∷ random in
    let h38 : 38 ≡ length front = omega (arith, r) in
    let key = client_auth_key c ephem (c.public_key cfg.static_secret) random in
    let ch = hello_of front sid rest in
    let aad = hello_of front (replicate 32 0) rest in
    let sealed = seal_session_id c key random p aad in
    let back = open-seal_session_id c key random aad p law v in
    let sent : seal_client_hello c key random p ch ≡ hello_of front sealed rest =
      ap (λ (a : List ℕ). write_session_id ch (seal_session_id c key random p a))
        (aad-hello_of front rest h38 sid s)
      ∙ write_session_id-hello_of front rest h38 sid sealed s back.1 in
    let derived : derive_auth_key c (c.diffie_hellman cfg.static_secret (c.public_key ephem)) random
        ≡ key =
      ap (λ (z : List ℕ). derive_auth_key c z random)
        (law.diffie_hellman_agrees cfg.static_secret ephem) in
    let payload = decode-encode p v in
    let opened : open_session_id c key random (padded sealed)
          (aad_from_client_hello (hello_of front sealed rest))
        ≡ some (encode p) =
      ap (open_session_id c key random (padded sealed)) (aad-hello_of front rest h38 sealed back.1)
      ∙ back.0 in
    let fields : ClientHelloFields = record {
      random = random;
      session_id = sealed;
      extracted = found;
    } in
    let accepted =
      classify_fields-authed c cfg now (hello_of front sealed rest) fields (c.public_key ephem) name
        (encode p) key share sni allowed back.1 derived opened
        (omega (arith, near, ap (λ (q : AuthPayload). q.unix_secs) payload)) in
    rw (sent, extract-hello_of lossy l1 l2 l3 v1 v2 random sealed rest found r back.1 e)
      (accepted ∙ ap (λ (q : AuthPayload). authed q.short_id q.unix_secs key) payload)
