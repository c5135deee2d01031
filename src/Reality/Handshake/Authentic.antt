-- ===== src/Reality/Handshake/Authentic.antt =====
-- What the client has checked of a flight that it accepts.
use leshiy.Prelude.{
  ℕ, ◌-◌, ◌≡◌, refl, ap, sym, ◌∙◌, drop, ltb, Bool, true, false, not, ◌&&◌, ◌||◌, Option, none,
  some, List, arith, ◌==◌, length,
}
use leshiy.Prelude.Net.{same_bytes, same_bytes_eq}
use leshiy.Tls.Error.{Outcome, failed, done}
use leshiy.Tls.Messages.{parse_certificate, parse_certificate_verify, parse_finished}
use leshiy.Tls.Suite.{Transcript, CipherSuite, update, transcript_hash}
use leshiy.Tls.Schedule.{finished_verify_data}
use leshiy.Reality.Handshake.Error.{
  Attempt, refused, panicked, got, HandshakeFault, no_ed25519_key, identity_mismatch,
  cert_verify_failed, server_finished_mismatch, ◌>>=◌, tls_err, ok_or, refuse_if,
}
use leshiy.Reality.Handshake.{
  Toolkit, Secrets, extract_ed25519_pubkey, verify_ed25519, cv_content, next_msg, is_identity,
  read_certificate, read_signed, read_flight,
}

bind-got {ℓ κ} :
    {A : Type ℓ} {B : Type κ} (first : Attempt A) (next : A → Attempt B) (b : B)
    → (first >>= next) ≡ got b
    → (a : A) × (first ≡ got a) × (next a ≡ got b)
bind-got (refused e) next b h = cc
bind-got panicked next b h = cc
bind-got (got a) next b h = (a, refl, h)

tls_err-got {ℓ} :
    {A : Type ℓ} (result : Outcome A) (a : A) → tls_err result ≡ got a → result ≡ done a
tls_err-got (failed e) a h = cc
tls_err-got (done x) a h = cc

ok_or-got {ℓ} :
    {A : Type ℓ} (o : Option A) (fault : HandshakeFault) (a : A)
    → ok_or o fault ≡ got a
    → o ≡ some a
ok_or-got none fault a h = cc
ok_or-got (some x) fault a h = cc

refuse_if-got :
    (test : Bool) (fault : HandshakeFault) (u : Unit {0})
    → refuse_if (not test) fault ≡ got u
    → test ≡ true
refuse_if-got true fault u h = refl
refuse_if-got false fault u h = cc

both_passed :
    (a b : Bool) (fault : HandshakeFault) (u : Unit {0})
    → refuse_if (not a || not b) fault ≡ got u
    → (a ≡ true) × (b ≡ true)
both_passed true true fault u h = (refl, refl)
both_passed true false fault u h = cc
both_passed false b fault u h = cc

and_right : (a b : Bool) → (a && b) ≡ true → b ≡ true
and_right true b h = h
and_right false b h = cc

unwrap {ℓ} : {A : Type ℓ} (a b : A) → got a ≡ got b → b ≡ a
unwrap a b h = cc

-- A certificate behind EncryptedExtensions whose last bytes are the MAC of its key under the
-- authentication key; `c` is the key, what is left and the transcript through the certificate.
pub record IsCertified (t : Toolkit) (auth_key inner : List ℕ) (tr : Transcript)
    (c : List ℕ × List ℕ × Transcript) : Type 0 where
  pub ee : List ℕ × List ℕ
  pub cert_msg : List ℕ × List ℕ
  pub der : List ℕ
  pub ee_next : next_msg t inner ≡ got ee
  pub cert_next : next_msg t ee.1 ≡ got cert_msg
  pub certificate_read : parse_certificate cert_msg.0 ≡ done der
  pub key_read : extract_ed25519_pubkey der ≡ some c.0
  pub identity_holds : drop (length der - 64) der ≡ t.hmac_sha512 auth_key c.0
  pub left_and_transcript : c ≡ (c.0, cert_msg.1, update (update tr ee.0) cert_msg.0)

-- A signature of the certificate's key over the transcript through the certificate, and the MAC of
-- the transcript through the signature.
pub record IsSigned (t : Toolkit) (suite : CipherSuite) (s : Secrets)
    (c : List ℕ × List ℕ × Transcript) (tr_fin : Transcript) : Type 0 where
  pub cv_msg : List ℕ × List ℕ
  pub fin_msg : List ℕ × List ℕ
  pub sig : List ℕ
  pub cv_next : next_msg t c.1 ≡ got cv_msg
  pub fin_next : next_msg t cv_msg.1 ≡ got fin_msg
  pub signature_read : parse_certificate_verify cv_msg.0 ≡ done (0x0807, sig)
  pub signature_holds : t.verify_strict c.0 (cv_content t c.2) sig ≡ true
  pub finished_holds :
      parse_finished fin_msg.0
      ≡ done (
          finished_verify_data t.prims suite s.s_hs (transcript_hash t.prims (update c.2 cv_msg.0)))
  pub through_finished : tr_fin ≡ update (update c.2 cv_msg.0) fin_msg.0

identity-mac :
    (t : Toolkit) (auth_key cert_pub der : List ℕ)
    → is_identity t auth_key cert_pub der ≡ true
    → drop (length der - 64) der ≡ t.hmac_sha512 auth_key cert_pub
identity-mac t auth_key cert_pub der h =
    let mac = t.hmac_sha512 auth_key cert_pub in
    sym (
      same_bytes_eq mac (drop (length der - 64) der)
        (and_right (not (ltb (length der) 64)) (same_bytes mac (drop (length der - 64) der)) h))

verify_ed25519-strict :
    (t : Toolkit) (key content sig : List ℕ)
    → verify_ed25519 t key content sig ≡ true
    → t.verify_strict key content sig ≡ true
unfolding verify_ed25519
verify_ed25519-strict t key content sig h =
    and_right (length sig == 64) (t.verify_strict key content sig)
      (and_right (t.is_verifying_key key) ((length sig == 64) && t.verify_strict key content sig) h)

same_number : (n m : ℕ) → (n == m) ≡ true → n ≡ m
same_number n m h = ground (arith, h)

read_certificate-IsCertified :
    (t : Toolkit) (auth_key inner : List ℕ) (tr : Transcript) (c : List ℕ × List ℕ × Transcript)
    → read_certificate t auth_key inner tr ≡ got c
    → IsCertified t auth_key inner tr c
unfolding read_certificate
read_certificate-IsCertified t auth_key inner tr c h =
    let (ee, first, h1) = bind-got (next_msg t inner) _ c h in
    let (cert_msg, second, h2) = bind-got (next_msg t ee.1) _ c h1 in
    let (der, cert, h3) = bind-got (tls_err (parse_certificate cert_msg.0)) _ c h2 in
    let (cert_pub, key, h4) = bind-got (ok_or (extract_ed25519_pubkey der) no_ed25519_key) _ c h3 in
    let (u, identity, h5) =
      bind-got (refuse_if (not (is_identity t auth_key cert_pub der)) identity_mismatch) _ c h4 in
    let same : c ≡ (cert_pub, cert_msg.1, update (update tr ee.0) cert_msg.0) =
      unwrap (cert_pub, cert_msg.1, update (update tr ee.0) cert_msg.0) c h5 in
    let same_key : c.0 ≡ cert_pub = ap (λ (x : List ℕ × List ℕ × Transcript). x.0) same in
    record {
      ee = ee;
      cert_msg = cert_msg;
      der = der;
      ee_next = first;
      cert_next = second;
      certificate_read = tls_err-got (parse_certificate cert_msg.0) der cert;
      key_read =
          ok_or-got (extract_ed25519_pubkey der) no_ed25519_key cert_pub key
          ∙ ap some (sym same_key);
      identity_holds =
          identity-mac t auth_key cert_pub der
            (refuse_if-got (is_identity t auth_key cert_pub der) identity_mismatch u identity)
          ∙ ap (t.hmac_sha512 auth_key) (sym same_key);
      left_and_transcript =
          same
          ∙ ap (λ (x : List ℕ). (x, cert_msg.1, update (update tr ee.0) cert_msg.0)) (sym same_key);
    }

read_signed-IsSigned :
    (t : Toolkit) (suite : CipherSuite) (s : Secrets) (c : List ℕ × List ℕ × Transcript)
    (tr_fin : Transcript)
    → read_signed t suite s c ≡ got tr_fin
    → IsSigned t suite s c tr_fin
unfolding read_signed
read_signed-IsSigned t suite s c tr_fin h =
    let (cv_msg, third, h6) = bind-got (next_msg t c.1) _ tr_fin h in
    let (cv, signature, h7) = bind-got (tls_err (parse_certificate_verify cv_msg.0)) _ tr_fin h6 in
    let tr_cv = update c.2 cv_msg.0 in
    let verified = verify_ed25519 t c.0 (cv_content t c.2) cv.1 in
    let (u2, signed, h8) =
      bind-got (refuse_if (not (cv.0 == 0x0807) || not verified) cert_verify_failed) _ tr_fin h7 in
    let (fin_msg, fourth, h9) = bind-got (next_msg t cv_msg.1) _ tr_fin h8 in
    let (s_vd, finished, h10) = bind-got (tls_err (parse_finished fin_msg.0)) _ tr_fin h9 in
    let expected = finished_verify_data t.prims suite s.s_hs (transcript_hash t.prims tr_cv) in
    let (u3, same, h11) =
      bind-got (refuse_if (not (same_bytes s_vd expected)) server_finished_mismatch) _ tr_fin h10 in
    let checks = both_passed (cv.0 == 0x0807) verified cert_verify_failed u2 signed in
    record {
      cv_msg = cv_msg;
      fin_msg = fin_msg;
      sig = cv.1;
      cv_next = third;
      fin_next = fourth;
      signature_read =
          tls_err-got (parse_certificate_verify cv_msg.0) cv signature
          ∙ ap (λ (alg : ℕ). done (alg, cv.1)) (same_number cv.0 0x0807 checks.0);
      signature_holds = verify_ed25519-strict t c.0 (cv_content t c.2) cv.1 checks.1;
      finished_holds =
          tls_err-got (parse_finished fin_msg.0) s_vd finished
          ∙ ap done (
              same_bytes_eq s_vd expected
                (refuse_if-got (same_bytes s_vd expected) server_finished_mismatch u3 same));
      through_finished = unwrap (update tr_cv fin_msg.0) tr_fin h11;
    }

-- A flight that the client accepts is authentic: the certificate's last bytes are the MAC of its key
-- under the authentication key; the key has signed the transcript through the certificate; and the Finished is the MAC of the transcript through the signature under
-- the handshake's secret.
pub read_flight_authentic :
    (t : Toolkit) (suite : CipherSuite) (s : Secrets) (auth_key inner : List ℕ)
    (tr tr_fin : Transcript)
    → read_flight t suite s auth_key inner tr ≡ got tr_fin
    → (c : List ℕ × List ℕ × Transcript) × IsCertified t auth_key inner tr c
      × IsSigned t suite s c tr_fin
unfolding read_flight
read_flight_authentic t suite s auth_key inner tr tr_fin h =
    let (c, certified, signed) =
      bind-got (read_certificate t auth_key inner tr) (λ x. read_signed t suite s x) tr_fin h in
    (
      c,
      read_certificate-IsCertified t auth_key inner tr c certified,
      read_signed-IsSigned t suite s c tr_fin signed,
    )
