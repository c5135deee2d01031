-- ===== src/Reality/Handshake/Flight.antt =====
-- The client reads the messages that the server sends behind its ServerHello.
use leshiy.Prelude.{
  ℕ, ◌+◌, ◌<◌, ◌≡◌, refl, ap, sym, ◌∙◌, true, none, some, List, [], ◌∷◌, ◌++◌, length,
  length-append, take-append, drop-append, append-nil, arith,
}
use leshiy.Prelude.Bytes.{to_be}
use leshiy.Prelude.Net.{same_bytes_refl}
use leshiy.Tls.Messages.{
  hs_msg, build_encrypted_extensions, certificate_entry, build_certificate, parse_certificate,
  build_certificate_verify, parse_certificate_verify, build_finished, parse_finished,
}
use leshiy.Tls.Messages.Cursor.{parse_hs_msg-hs_msg}
use leshiy.Tls.Messages.Certificates.{parse-build_messages}
use leshiy.Tls.Suite.{Transcript, CipherSuite, update, transcript_hash}
use leshiy.Tls.Schedule.{finished_verify_data, length-finished_verify_data}
use leshiy.Reality.Handshake.Error.{got}
use leshiy.Reality.Handshake.{
  Toolkit, ServerCert, Secrets, extract_ed25519_pubkey, verify_ed25519, cv_content, server_messages,
  next_msg, is_identity, read_certificate, read_signed, read_flight,
}
use leshiy.Reality.Handshake.Exchange.{IsToolkit}

module _ (t : Toolkit) where
  next_msg-hs_msg :
      (ty : ℕ) (body rest : List ℕ)
      → length body < 16777216
      → next_msg t (hs_msg ty body ++ rest) ≡ got (hs_msg ty body, rest)
  unfolding next_msg hs_msg
  next_msg-hs_msg ty body rest fits =
      let msg = ty ∷ (to_be 3 (length body) ++ body) in
      let size : 4 + length body ≡ length msg = omega arith in
      rw
        (
          parse_hs_msg-hs_msg ty body rest fits,
          take-append msg rest (4 + length body) size,
          drop-append msg rest (4 + length body) size,
        )
        refl

  next_ee :
      (rest : List ℕ)
      → next_msg t (build_encrypted_extensions none ++ rest)
        ≡ got (build_encrypted_extensions none, rest)
  unfolding build_encrypted_extensions
  next_ee rest = next_msg-hs_msg 0x08 (to_be 2 0 ++ []) rest (omega arith)

  next_certificate :
      (der rest : List ℕ)
      → length der < 60000
      → next_msg t (build_certificate der ++ rest) ≡ got (build_certificate der, rest)
  unfolding build_certificate certificate_entry
  next_certificate der rest fits =
      let entry = certificate_entry der in
      next_msg-hs_msg 0x0b ((0x00 ∷ []) ++ (to_be 3 (length entry) ++ entry)) rest
        (omega (arith, fits, length-append der (0x00 ∷ 0x00 ∷ [])))

  next_certificate_verify :
      (sig rest : List ℕ)
      → length sig < 65000
      → next_msg t (build_certificate_verify 0x0807 sig ++ rest)
        ≡ got (build_certificate_verify 0x0807 sig, rest)
  unfolding build_certificate_verify
  next_certificate_verify sig rest fits =
      next_msg-hs_msg 0x0f (to_be 2 0x0807 ++ (to_be 2 (length sig) ++ sig)) rest
        (omega (arith, fits))

  next_finished :
      (vd : List ℕ) → length vd < 65 → next_msg t (build_finished vd) ≡ got (build_finished vd, [])
  unfolding build_finished
  next_finished vd fits =
      ap (next_msg t) (sym (append-nil (hs_msg 0x14 vd)))
      ∙ next_msg-hs_msg 0x14 vd [] (omega (arith, fits))

  verify-sign_transcript :
      (law : IsToolkit t) (key : List ℕ) (tr : Transcript)
      → verify_ed25519 t (t.verifying_key key) (cv_content t tr) (t.sign key (cv_content t tr))
        ≡ true
  unfolding verify_ed25519
  verify-sign_transcript law key tr =
      rw
        (
          law.key_valid key,
          sym (law.length-sign key (cv_content t tr)),
          law.verify-sign key (cv_content t tr),
        )
        refl

  -- The messages pass every check of the client, which has the server's transcript at their end.
  pub read_flight-server_messages :
      (suite : CipherSuite) (s : Secrets) (cert : ServerCert) (auth_key der : List ℕ)
      (tr : Transcript)
      → IsToolkit t
      → length der < 60000
      → extract_ed25519_pubkey der ≡ some (t.verifying_key cert.signing_key)
      → is_identity t auth_key (t.verifying_key cert.signing_key) der ≡ true
      → read_flight t suite s auth_key (server_messages t suite s cert der tr).0 tr
        ≡ got (server_messages t suite s cert der tr).1
  unfolding read_flight read_certificate read_signed server_messages
  read_flight-server_messages suite s cert auth_key der tr law fits known identity =
      let ee = build_encrypted_extensions none in
      let cert_msg = build_certificate der in
      let tr_cert = update (update tr ee) cert_msg in
      let sig = t.sign cert.signing_key (cv_content t tr_cert) in
      let cv_msg = build_certificate_verify 0x0807 sig in
      let tr_cv = update tr_cert cv_msg in
      let vd = finished_verify_data t.prims suite s.s_hs (transcript_hash t.prims tr_cv) in
      let fin_msg = build_finished vd in
      let sig_size = law.length-sign cert.signing_key (cv_content t tr_cert) in
      let vd_size : length vd < 65 =
        length-finished_verify_data t.prims suite s.s_hs (transcript_hash t.prims tr_cv)
          law.prims_law in
      let parsed =
        parse-build_messages der sig vd [] 0x0807 (omega (arith, fits)) (omega (arith, sig_size))
          (omega arith) (omega (arith, vd_size)) in
      rw
        (
          next_ee (cert_msg ++ (cv_msg ++ fin_msg)),
          next_certificate der (cv_msg ++ fin_msg) fits,
          ap parse_certificate (sym (append-nil cert_msg)) ∙ parsed.0,
          known,
          identity,
          next_certificate_verify sig fin_msg (omega (arith, sig_size)),
          ap parse_certificate_verify (sym (append-nil cv_msg)) ∙ parsed.1,
          verify-sign_transcript law cert.signing_key tr_cert,
          next_finished vd vd_size,
          ap parse_finished (sym (append-nil fin_msg)) ∙ parsed.2,
          same_bytes_refl vd,
        )
        refl
