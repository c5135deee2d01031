-- ===== src/Reality/Handshake.antt =====
-- crates/leshiy-reality/src/handshake.rs: the two ends of the authenticated TLS 1.3 handshake, and the
-- wrapper of ML-KEM in crates/leshiy-tls/src/tls13/mlkem.rs. The crates' primitives are the record
-- Toolkit; what the server draws at random are the arguments `sk_bytes` and `seed`.
pub mod Error
pub mod Certificate
pub mod Exchange
pub mod Flight
pub mod Completes
pub mod Authentic
mod Tests
use leshiy.Prelude.{
  ℕ, ◌+◌, ◌-◌, not, ◌&&◌, ◌||◌, Bool, true, false, Option, none, some, List, [], ◌∷◌, ◌++◌, length,
  take, drop, replicate, ltb, ◌==◌, if◌then◌else◌,
}
use leshiy.Prelude.Net.{same_bytes}
use leshiy.Tls.Record.{Record}
use leshiy.Tls.Record
use leshiy.Tls.ClientHello.{ClientHelloFields, MlKemClientShare, extract_client_hello_fields}
use leshiy.Tls.Messages.{
  ServerHelloParams, parse_hs_msg, parse_server_hello, adapt_server_hello,
  build_encrypted_extensions, build_certificate, parse_certificate, build_certificate_verify,
  parse_certificate_verify, build_finished, parse_finished,
}
use leshiy.Tls.Protected.{seal_record, open_record}
use leshiy.Tls.Suite.{
  Primitives, CipherSuite, from_u16, aead_of, Transcript, new, update, transcript_hash,
}
use leshiy.Tls.Schedule.{
  early_secret, handshake_secret, master_secret, client_hs_traffic, server_hs_traffic,
  client_ap_traffic, server_ap_traffic, traffic_key, finished_verify_data,
}
use leshiy.Reality.Auth.{Crypto}
use leshiy.Reality.Handshake.Error.{
  Attempt, refused, got, malformed, ◌>>=◌, tls_err, ok_or, or_panic, refuse_if, bad_suite,
  no_mlkem_share, mlkem_encapsulate_failed, no_x25519_share, expected_handshake,
  client_finished_mismatch, expected_sh_record, bad_mlkem_share_length, mlkem_decapsulate_failed,
  bad_key_share, no_ed25519_key, identity_mismatch, cert_verify_failed, server_finished_mismatch,
}

-- X25519 is in `crypto`; `kem_encapsulate` takes its randomness and a key of the right length, which
-- may be no valid one.
pub record Toolkit : Type 0 where
  pub crypto : Crypto
  pub prims : Primitives
  pub kem_encapsulate : List ℕ → List ℕ → Option (List ℕ × List ℕ)
  pub kem_decapsulate : List ℕ → List ℕ → List ℕ
  pub verifying_key : List ℕ → List ℕ
  pub sign : List ℕ → List ℕ → List ℕ
  pub is_verifying_key : List ℕ → Bool
  pub verify_strict : List ℕ → List ℕ → List ℕ → Bool
  pub hmac_sha512 : List ℕ → List ℕ → List ℕ

abbrev pub ml_kem_ek : ℕ
ml_kem_ek = 1184

abbrev pub ml_kem_ct : ℕ
ml_kem_ct = 1088

abbrev pub ed25519_spki_prefix : List ℕ
ed25519_spki_prefix =
    0x30 ∷ 0x2a ∷ 0x30 ∷ 0x05 ∷ 0x06 ∷ 0x03 ∷ 0x2b ∷ 0x65 ∷ 0x70 ∷ 0x03 ∷ 0x21 ∷ 0x00 ∷ []

abbrev pub cv_context : List ℕ
cv_context =
    b'T' ∷ b'L' ∷ b'S' ∷ b' ' ∷ b'1' ∷ b'.' ∷ b'3' ∷ b',' ∷ b' ' ∷ b's' ∷ b'e' ∷ b'r' ∷ b'v' ∷ b'e'
    ∷ b'r' ∷ b' ' ∷ b'C' ∷ b'e' ∷ b'r' ∷ b't' ∷ b'i' ∷ b'f' ∷ b'i' ∷ b'c' ∷ b'a' ∷ b't' ∷ b'e'
    ∷ b'V' ∷ b'e' ∷ b'r' ∷ b'i' ∷ b'f' ∷ b'y' ∷ 0x00 ∷ []

-- The bytes from the first window that is the prefix on.
abbrev pub at_prefix : List ℕ → Option (List ℕ)
at_prefix [] = none
at_prefix (b ∷ bs) =
    if same_bytes (take 12 (b ∷ bs)) ed25519_spki_prefix then some (b ∷ bs) else at_prefix bs

-- `der.get(i + 12..i + 44)`
abbrev pub key_behind : Option (List ℕ) → Option (List ℕ)
key_behind none = none
key_behind (some found) = if ltb (length found) 44 then none else some (take 32 (drop 12 found))

unfoldable pub extract_ed25519_pubkey : List ℕ → Option (List ℕ)
extract_ed25519_pubkey der = key_behind (at_prefix der)

pub record ServerCert : Type 0 where
  pub der_template : List ℕ
  pub signing_key : List ℕ

pub record TlsSession : Type 0 where
  pub suite : CipherSuite
  pub client_key : List ℕ
  pub client_iv : List ℕ
  pub server_key : List ℕ
  pub server_iv : List ℕ

pub record ServerHandshake : Type 0 where
  pub suite : CipherSuite
  pub client_hs_key : List ℕ
  pub client_hs_iv : List ℕ
  pub client_finished_secret : List ℕ
  pub transcript_through_server_fin : List ℕ
  pub session : TlsSession

pub record ClientHandshakeOut : Type 0 where
  pub session : TlsSession
  pub client_finished_record : List ℕ

-- The handshake's secrets: the root, and those of the server's and of the client's traffic.
pub record Secrets : Type 0 where
  pub hs : List ℕ
  pub s_hs : List ℕ
  pub c_hs : List ℕ

abbrev pub content_handshake : ℕ
content_handshake = 0x16

module _ (t : Toolkit) where
  unfoldable pub encapsulate : List ℕ → List ℕ → Option (List ℕ × List ℕ)
  encapsulate seed ek_bytes =
      if not (length ek_bytes == ml_kem_ek) then none else t.kem_encapsulate seed ek_bytes

  unfoldable pub decapsulate : List ℕ → List ℕ → Option (List ℕ)
  decapsulate dk ct_bytes =
      if not (length ct_bytes == ml_kem_ct) then none else some (t.kem_decapsulate dk ct_bytes)

  -- The slice panics for a template or a MAC of another size.
  unfoldable pub signed_for : ServerCert → List ℕ → Option (List ℕ)
  signed_for cert auth_key =
      let mac = t.hmac_sha512 auth_key (t.verifying_key cert.signing_key) in
      let n = length cert.der_template in
      if ltb n 64 || not (length mac == 64)
      then none
      else some (take (n - 64) cert.der_template ++ mac)

  unfoldable pub verify_ed25519 : List ℕ → List ℕ → List ℕ → Bool
  verify_ed25519 pubkey content sig =
      t.is_verifying_key pubkey && ((length sig == 64) && t.verify_strict pubkey content sig)

  unfoldable pub cv_content : Transcript → List ℕ
  cv_content tr = replicate 64 0x20 ++ (cv_context ++ transcript_hash t.prims tr)

  unfoldable pub secrets : CipherSuite → List ℕ → Transcript → Secrets
  secrets suite shared tr =
      let th_chsh = transcript_hash t.prims tr in
      let hs = handshake_secret t.prims suite (early_secret t.prims suite) shared in
      record {
        hs = hs;
        s_hs = server_hs_traffic t.prims suite hs th_chsh;
        c_hs = client_hs_traffic t.prims suite hs th_chsh;
      }

  -- The application keys, from the transcript through the server's Finished.
  unfoldable pub session_of : CipherSuite → Secrets → List ℕ → TlsSession
  session_of suite s th_sfin =
      let master = master_secret t.prims suite s.hs in
      let client = traffic_key t.prims suite (client_ap_traffic t.prims suite master th_sfin) in
      let server = traffic_key t.prims suite (server_ap_traffic t.prims suite master th_sfin) in
      record {
        suite = suite;
        client_key = client.0;
        client_iv = client.1;
        server_key = server.0;
        server_iv = server.1;
      }

  -- The server's share, and the shared secret.
  abbrev pub encapsulated : List ℕ → List ℕ → List ℕ × List ℕ → List ℕ × List ℕ
  encapsulated sk_bytes client_pub kem =
      (kem.0 ++ t.crypto.public_key sk_bytes, kem.1 ++ t.crypto.diffie_hellman sk_bytes client_pub)

  unfoldable pub server_shared : ClientHelloFields → ℕ → List ℕ → List ℕ → Attempt (List ℕ × List ℕ)
  server_shared fields group sk_bytes seed =
      if group == 0x11ec
      then (ok_or fields.extracted.key_share_mlkem no_mlkem_share >>= λ cs.
          ok_or (encapsulate seed cs.ek) mlkem_encapsulate_failed >>= λ kem.
          got (encapsulated sk_bytes cs.x25519 kem))
      else (ok_or fields.extracted.key_share_x25519 no_x25519_share >>= λ client_pub.
          got (t.crypto.public_key sk_bytes, t.crypto.diffie_hellman sk_bytes client_pub))

  unfoldable pub client_shared : ServerHelloParams → List ℕ → List ℕ → Attempt (List ℕ)
  client_shared p client_priv mlkem_dk =
      if p.key_share_group == 0x11ec
      then (refuse_if (not (length p.key_share == 1120)) bad_mlkem_share_length >>= λ _.
          ok_or (decapsulate mlkem_dk (take 1088 p.key_share)) mlkem_decapsulate_failed
          >>= λ ss_mlkem.
              got (ss_mlkem ++ t.crypto.diffie_hellman client_priv (drop 1088 p.key_share)))
      else (refuse_if (not (p.key_share_group == 0x001d) || not (length p.key_share == 32))
            bad_key_share
          >>= λ _. got (t.crypto.diffie_hellman client_priv p.key_share))

  -- The messages behind the ServerHello, and the transcript through them.
  unfoldable pub server_messages :
      CipherSuite → Secrets → ServerCert → List ℕ → Transcript → List ℕ × Transcript
  server_messages suite s cert der tr =
      let ee = build_encrypted_extensions none in
      let cert_msg = build_certificate der in
      let tr_cert = update (update tr ee) cert_msg in
      let cv_msg = build_certificate_verify 0x0807 (t.sign cert.signing_key (cv_content tr_cert)) in
      let tr_cv = update tr_cert cv_msg in
      let fin_msg =
        build_finished
          (finished_verify_data t.prims suite s.s_hs (transcript_hash t.prims tr_cv)) in
      (ee ++ (cert_msg ++ (cv_msg ++ fin_msg)), update tr_cv fin_msg)

  unfoldable pub server_state : CipherSuite → Secrets → List ℕ → ServerHandshake
  server_state suite s th_sfin =
      let client = traffic_key t.prims suite s.c_hs in
      record {
        suite = suite;
        client_hs_key = client.0;
        client_hs_iv = client.1;
        client_finished_secret = s.c_hs;
        transcript_through_server_fin = th_sfin;
        session = session_of suite s th_sfin;
      }

  -- From the ServerHello on that is sent.
  unfoldable pub server_flight :
      CipherSuite
      → ServerCert
      → List ℕ
      → List ℕ
      → List ℕ
      → List ℕ
      → Attempt (ServerHandshake × List ℕ)
  server_flight suite cert auth_key client_hello sh shared =
      let tr = update (update (new suite) client_hello) sh in
      let s = secrets suite shared tr in
      let server = traffic_key t.prims suite s.s_hs in
      or_panic (signed_for cert auth_key) >>= λ der.
      tls_err (
        seal_record (aead_of t.prims suite) server.0 server.1 0 content_handshake
          (server_messages suite s cert der tr).0)
      >>= λ enc. or_panic (Record.encode (record { content_type = 22; payload = sh })) >>= λ first.
          got (
            server_state suite s (transcript_hash t.prims (server_messages suite s cert der tr).1),
            first ++ enc,
          )

  unfoldable pub server_handshake :
      (List ℕ → List ℕ)
      → List ℕ
      → List ℕ
      → List ℕ
      → ServerCert
      → List ℕ
      → List ℕ
      → Attempt (ServerHandshake × List ℕ)
  server_handshake lossy client_hello dest_server_hello auth_key cert sk_bytes seed =
      tls_err (extract_client_hello_fields lossy client_hello) >>= λ fields.
      tls_err (parse_server_hello dest_server_hello) >>= λ sh_params.
      ok_or (from_u16 sh_params.suite) bad_suite >>= λ suite.
      server_shared fields sh_params.key_share_group sk_bytes seed >>= λ exchanged.
      tls_err (adapt_server_hello dest_server_hello exchanged.0) >>= λ sh.
      server_flight suite cert auth_key client_hello sh exchanged.1

  unfoldable pub finish : ServerHandshake → List ℕ → Attempt TlsSession
  finish state client_finished_record =
      tls_err (
        open_record (aead_of t.prims state.suite) state.client_hs_key state.client_hs_iv 0
          client_finished_record)
      >>= λ inner. refuse_if (not (inner.0 == content_handshake)) expected_handshake >>= λ _.
          tls_err (parse_finished inner.1) >>= λ vd.
          refuse_if
            (not (
              same_bytes vd (
                finished_verify_data t.prims state.suite state.client_finished_secret
                  state.transcript_through_server_fin)))
            client_finished_mismatch
          >>= λ _. got state.session

  -- The next message, and what is left behind it.
  unfoldable pub next_msg : List ℕ → Attempt (List ℕ × List ℕ)
  next_msg rest = tls_err (parse_hs_msg rest) >>= λ m.
      got (take (4 + length m.1) rest, drop (4 + length m.1) rest)

  abbrev pub is_identity : List ℕ → List ℕ → List ℕ → Bool
  is_identity auth_key cert_pub der =
      not (ltb (length der) 64)
      && same_bytes (t.hmac_sha512 auth_key cert_pub) (drop (length der - 64) der)

  -- EncryptedExtensions and Certificate: the certificate's key, what is left, and the transcript.
  unfoldable pub read_certificate :
      List ℕ → List ℕ → Transcript → Attempt (List ℕ × List ℕ × Transcript)
  read_certificate auth_key inner tr = next_msg inner >>= λ ee. next_msg ee.1 >>= λ cert_msg.
      tls_err (parse_certificate cert_msg.0) >>= λ der.
      ok_or (extract_ed25519_pubkey der) no_ed25519_key >>= λ cert_pub.
      refuse_if (not (is_identity auth_key cert_pub der)) identity_mismatch >>= λ _.
      got (cert_pub, cert_msg.1, update (update tr ee.0) cert_msg.0)

  -- CertificateVerify and Finished: the transcript through them.
  unfoldable pub read_signed :
      CipherSuite → Secrets → List ℕ × List ℕ × Transcript → Attempt Transcript
  read_signed suite s c = next_msg c.1 >>= λ cv_msg.
      tls_err (parse_certificate_verify cv_msg.0) >>= λ cv.
      let tr_cv = update c.2 cv_msg.0 in
      refuse_if (not (cv.0 == 0x0807) || not (verify_ed25519 c.0 (cv_content c.2) cv.1))
        cert_verify_failed
      >>= λ _. next_msg cv_msg.1 >>= λ fin_msg. tls_err (parse_finished fin_msg.0) >>= λ s_vd.
          refuse_if
            (not (
              same_bytes s_vd
                (finished_verify_data t.prims suite s.s_hs (transcript_hash t.prims tr_cv))))
            server_finished_mismatch
          >>= λ _. got (update tr_cv fin_msg.0)

  -- The messages behind the ServerHello: the transcript through them.
  unfoldable pub read_flight :
      CipherSuite → Secrets → List ℕ → List ℕ → Transcript → Attempt Transcript
  read_flight suite s auth_key inner tr =
      read_certificate auth_key inner tr >>= λ c. read_signed suite s c

  -- From the ServerHello on: its record is taken off the flight.
  unfoldable pub client_rest :
      CipherSuite → List ℕ → List ℕ → List ℕ → List ℕ → List ℕ → Attempt ClientHandshakeOut
  client_rest suite auth_key client_hello sh shared enc =
      let tr = update (update (new suite) client_hello) sh in
      let s = secrets suite shared tr in
      let server = traffic_key t.prims suite s.s_hs in
      let client = traffic_key t.prims suite s.c_hs in
      tls_err (open_record (aead_of t.prims suite) server.0 server.1 0 enc) >>= λ inner.
      refuse_if (not (inner.0 == content_handshake)) expected_handshake >>= λ _.
      read_flight suite s auth_key inner.1 tr >>= λ tr_fin.
      let th_sfin = transcript_hash t.prims tr_fin in
      tls_err (
        seal_record (aead_of t.prims suite) client.0 client.1 0 content_handshake
          (build_finished (finished_verify_data t.prims suite s.c_hs th_sfin)))
      >>= λ c_fin_rec.
          got (record { session = session_of suite s th_sfin; client_finished_record = c_fin_rec })

  unfoldable pub client_handshake :
      List ℕ → List ℕ → List ℕ → List ℕ → List ℕ → Attempt ClientHandshakeOut
  client_handshake client_hello server_flight client_priv auth_key mlkem_dk =
      tls_err (Record.decode server_flight) >>= λ first.
      refuse_if (not (first.0.content_type == 22)) expected_sh_record >>= λ _.
      tls_err (parse_server_hello first.0.payload) >>= λ sh_params.
      ok_or (from_u16 sh_params.suite) bad_suite >>= λ suite.
      client_shared sh_params client_priv mlkem_dk >>= λ shared.
      client_rest suite auth_key client_hello first.0.payload shared (drop first.1 server_flight)
