-- ===== src/Reality/Handshake/Completes.antt =====
-- The two ends complete the handshake with the same session.
use leshiy.Prelude.{
  ℕ, ◌+◌, ◌-◌, ◌≤◌, ◌<◌, ◌≡◌, inl, inr, refl, ap, sym, ◌∙◌, none, some, List, [], ◌∷◌, ◌++◌, length,
  take, length-append, drop-append, append-nil, arith,
}
use leshiy.Prelude.Net.{same_bytes_refl}
use leshiy.Tls.Error.{done}
use leshiy.Tls.Record.{Record}
use leshiy.Tls.Record
use leshiy.Tls.Record.Codec.{decode-encode_prefix}
use leshiy.Tls.ClientHello.{ClientHelloFields, extract_client_hello_fields}
use leshiy.Tls.Messages.{
  ServerHelloParams, hs_msg, server_hello_extensions, build_server_hello, parse_server_hello,
  adapt_server_hello, build_encrypted_extensions, certificate_entry, build_certificate,
  build_certificate_verify, build_finished, parse_finished,
}
use leshiy.Tls.Messages.Certificates.{parse-build_messages}
use leshiy.Tls.Messages.RoundTrip.{IsServerHello, parse_server_hello-build}
use leshiy.Tls.Protected.{Aead, IsAead, seal_record, open_record}
use leshiy.Tls.Protected.RoundTrip.{open_record-seal_record}
use leshiy.Tls.Suite.{Transcript, CipherSuite, from_u16, aead_of, new, update, transcript_hash}
use leshiy.Tls.Schedule.{
  traffic_key, length-traffic_key, finished_verify_data, length-finished_verify_data,
}
use leshiy.Reality.Handshake.Error.{got}
use leshiy.Reality.Handshake.{
  Toolkit, ServerCert, ServerHandshake, ClientHandshakeOut, Secrets, extract_ed25519_pubkey,
  cv_content, secrets, session_of, server_messages, server_state, server_flight, server_handshake,
  finish, client_rest, client_handshake,
}
use leshiy.Reality.Handshake.Certificate.{signed_for-identity}
use leshiy.Reality.Handshake.Exchange.{IsToolkit, IsOffer, IsGroup, shared_agrees}
use leshiy.Reality.Handshake.Flight.{read_flight-server_messages}

-- The template ends in a signature's 64 bytes, with the server's key in front of them.
pub record IsCert (t : Toolkit) (cert : ServerCert) : Type 0 where
  pub room : 64 ≤ length cert.der_template
  pub template_fits : length cert.der_template < 60000
  pub key_known :
      extract_ed25519_pubkey (take (length cert.der_template - 64) cert.der_template)
      ≡ some (t.verifying_key cert.signing_key)

seal-open :
    (a : Aead) (key iv plaintext : List ℕ)
    → IsAead a key
    → length plaintext ≤ 65518
    → (bytes : List ℕ) × (seal_record a key iv 0 0x16 plaintext ≡ done bytes)
      × (open_record a key iv 0 bytes ≡ done (0x16, plaintext))
seal-open a key iv plaintext law fits =
    elim (open_record-seal_record a key iv plaintext 0 0x16 law (omega arith)) [
      | inl (long, refused) ↦ absurd (omega (arith, long, fits))
      | inr (bytes, small, sealed, opened) ↦ (bytes, sealed, opened)
    ]

length-build_encrypted_extensions : length (build_encrypted_extensions none) ≡ 6
unfolding build_encrypted_extensions hs_msg
length-build_encrypted_extensions = refl

length-build_certificate : (der : List ℕ) → length (build_certificate der) ≡ 13 + length der
unfolding build_certificate certificate_entry hs_msg
length-build_certificate der = omega (arith, length-append der (0x00 ∷ 0x00 ∷ []))

length-build_certificate_verify :
    (sig : List ℕ) → length (build_certificate_verify 0x0807 sig) ≡ 8 + length sig
unfolding build_certificate_verify hs_msg
length-build_certificate_verify sig = omega arith

length-build_finished : (vd : List ℕ) → length (build_finished vd) ≡ 4 + length vd
unfolding build_finished hs_msg
length-build_finished vd = omega arith

module _ (t : Toolkit) (law : IsToolkit t) (suite : CipherSuite) where
  length-server_messages :
      (s : Secrets) (cert : ServerCert) (der : List ℕ) (tr : Transcript)
      → length der < 60000
      → length (server_messages t suite s cert der tr).0 ≤ 65518
  unfolding server_messages
  length-server_messages s cert der tr fits =
      let ee = build_encrypted_extensions none in
      let cert_msg = build_certificate der in
      let tr_cert = update (update tr ee) cert_msg in
      let sig = t.sign cert.signing_key (cv_content t tr_cert) in
      let cv_msg = build_certificate_verify 0x0807 sig in
      let tr_cv = update tr_cert cv_msg in
      let vd = finished_verify_data t.prims suite s.s_hs (transcript_hash t.prims tr_cv) in
      let fin_msg = build_finished vd in
      let sig_size = law.length-sign cert.signing_key (cv_content t tr_cert) in
      let vd_size =
        length-finished_verify_data t.prims suite s.s_hs (transcript_hash t.prims tr_cv)
          law.prims_law in
      omega (
        arith,
        fits,
        sig_size,
        vd_size,
        length-build_encrypted_extensions,
        length-build_certificate der,
        length-build_certificate_verify sig,
        length-build_finished vd,
        length-append ee (cert_msg ++ (cv_msg ++ fin_msg)),
        length-append cert_msg (cv_msg ++ fin_msg),
        length-append cv_msg fin_msg,
      )

  -- Under the key of any traffic secret, what is sealed is opened.
  traffic-open :
      (secret plaintext : List ℕ)
      → length plaintext ≤ 65518
      → (bytes : List ℕ) × (seal_record
            (aead_of t.prims suite)
            (traffic_key t.prims suite secret).0
            (traffic_key t.prims suite secret).1
            0
            0x16
            plaintext
          ≡ done bytes)
        × (open_record
              (aead_of t.prims suite)
              (traffic_key t.prims suite secret).0
              (traffic_key t.prims suite secret).1
              0
              bytes
            ≡ done (0x16, plaintext))
  traffic-open secret plaintext fits =
      let key = traffic_key t.prims suite secret in
      seal-open (aead_of t.prims suite) key.0 key.1 plaintext
        (law.prims_law.aead-IsAead suite key.0
          (length-traffic_key t.prims suite secret law.prims_law))
        fits

  parse_finished-build :
      (vd : List ℕ) → length vd < 65 → parse_finished (build_finished vd) ≡ done vd
  parse_finished-build vd fits =
      ap parse_finished (sym (append-nil (build_finished vd)))
      ∙ (parse-build_messages [] [] vd [] 0 (omega arith) (omega arith) (omega arith)
          (omega (arith, fits))).2

  -- The client's Finished, which the server accepts.
  finish-sealed :
      (s : Secrets) (th_sfin : List ℕ)
      → (record_bytes : List ℕ) × (seal_record
            (aead_of t.prims suite)
            (traffic_key t.prims suite s.c_hs).0
            (traffic_key t.prims suite s.c_hs).1
            0
            0x16
            (build_finished (finished_verify_data t.prims suite s.c_hs th_sfin))
          ≡ done record_bytes)
        × (finish t (server_state t suite s th_sfin) record_bytes
            ≡ got (session_of t suite s th_sfin))
  unfolding finish server_state
  finish-sealed s th_sfin =
      let vd = finished_verify_data t.prims suite s.c_hs th_sfin in
      let vd_size = length-finished_verify_data t.prims suite s.c_hs th_sfin law.prims_law in
      let (bytes, sealed, opened) =
        traffic-open s.c_hs (build_finished vd)
          (omega (arith, length-build_finished vd, vd_size)) in
      (bytes, sealed, rw (opened, parse_finished-build vd vd_size, same_bytes_refl vd) refl)

  session_same :
      (s : Secrets) (th_sfin : List ℕ)
      → session_of t suite s th_sfin ≡ (server_state t suite s th_sfin).session
  unfolding server_state
  session_same s th_sfin = refl

  -- From the ServerHello on, which fits a record.
  flight-completes :
      (cert : ServerCert) (auth_key client_hello sh shared : List ℕ)
      → IsCert t cert
      → length sh ≤ 16640
      → (state : ServerHandshake) × (first : List ℕ) × (enc : List ℕ) × (out : ClientHandshakeOut)
        × (server_flight t suite cert auth_key client_hello sh shared ≡ got (state, first ++ enc))
        × (Record.decode (first ++ enc)
            ≡ done (record { content_type = 22; payload = sh }, length first))
        × (client_rest t suite auth_key client_hello sh shared enc ≡ got out)
        × (out.session ≡ state.session)
        × (finish t state out.client_finished_record ≡ got out.session)
  unfolding server_flight client_rest
  flight-completes cert auth_key client_hello sh shared v fits =
      let tr = update (update (new suite) client_hello) sh in
      let s = secrets t suite shared tr in
      let (der, signed, size, known, identity) =
        signed_for-identity t cert auth_key v.room law.length-hmac_sha512 v.key_known in
      let der_fits : length der < 60000 = omega (arith, size, v.template_fits) in
      let messages = server_messages t suite s cert der tr in
      let th_sfin = transcript_hash t.prims messages.1 in
      let (enc, sealed, opened) =
        traffic-open s.s_hs messages.0 (length-server_messages s cert der tr der_fits) in
      let (c_fin, c_sealed, accepted) = finish-sealed s th_sfin in
      let (first, encoded, decoded) =
        decode-encode_prefix (record { content_type = 22; payload = sh }) enc fits in
      (
        server_state t suite s th_sfin,
        first,
        enc,
        record { session = session_of t suite s th_sfin; client_finished_record = c_fin },
        rw (signed, sealed, encoded) refl,
        decoded,
        rw
            (
              opened,
              read_flight-server_messages t suite s cert auth_key der tr law der_fits known
                  identity,
              c_sealed,
            )
            refl,
        session_same s th_sfin,
        accepted,
      )

length-build_server_hello :
    (p : ServerHelloParams)
    → IsServerHello p
    → length p.key_share ≤ 1120
    → length (build_server_hello p) ≤ 16640
unfolding build_server_hello server_hello_extensions hs_msg
length-build_server_hello p v small =
    omega (arith, v.random_length, v.session_id_fits, small, length-append {0})

module _ (t : Toolkit) (lossy : List ℕ → List ℕ) (client_hello client_priv dk : List ℕ)
    (fields : ClientHelloFields) (dest : ServerHelloParams) (more : List ℕ) (suite : CipherSuite)
    (cert : ServerCert) (auth_key sk_bytes seed : List ℕ) (law : IsToolkit t)
    (known : IsCert t cert) (o : IsOffer t client_priv dk fields) (v : IsServerHello dest)
    (read : extract_client_hello_fields lossy client_hello ≡ done fields)
    (supported : from_u16 dest.suite ≡ some suite) (group : IsGroup dest.key_share_group) where
  -- The server's flight, made of the destination's ServerHello for a group and a suite that both
  -- know, is accepted by the client whose hello it answers and who has the same authentication key;
  -- the client's Finished is accepted by the server; and both have the same session.
  pub finish-client_handshake :
      (state : ServerHandshake) × (flight : List ℕ) × (out : ClientHandshakeOut) × (server_handshake
          t lossy client_hello
          (build_server_hello dest ++ more)
          auth_key
          cert
          sk_bytes
          seed
        ≡ got (state, flight))
      × (client_handshake t client_hello flight client_priv auth_key dk ≡ got out)
      × (out.session ≡ state.session)
      × (finish t state out.client_finished_record ≡ got out.session)
  unfolding server_handshake client_handshake adapt_server_hello
  finish-client_handshake =
      let (share, shared, server_side, share_ok, client_side) =
        shared_agrees t client_priv dk fields sk_bytes seed law o dest group in
      let q = record dest { key_share = share } in
      let short : length share ≤ 1120 = ground (arith, share_ok) in
      let q_fits : IsServerHello q = record {
        suite_fits = v.suite_fits;
        random_length = v.random_length;
        session_id_fits = v.session_id_fits;
        group_fits = v.group_fits;
        share_length = omega (arith, short);
      } in
      let sh = build_server_hello q in
      let (state, first, enc, out, sent, decoded, received, same, finished) =
        flight-completes t law suite cert auth_key client_hello sh shared known
          (length-build_server_hello q q_fits short) in
      let back : parse_server_hello sh ≡ done q =
        ap parse_server_hello (sym (append-nil sh)) ∙ parse_server_hello-build q [] q_fits in
      (
        state,
        first ++ enc,
        out,
        rw (read, parse_server_hello-build dest more v, supported, server_side, share_ok) sent,
        rw (decoded, back, supported, client_side, drop-append first enc (length first) refl)
            received,
        same,
        finished,
      )
