-- ===== src/Tls/Messages/Certificates.antt =====
-- Certificate, CertificateVerify and Finished: what is built is parsed back.
use leshiy.Prelude.{
  ℕ, ◌+◌, ◌<◌, ◌≡◌, refl, ap, sym, ◌∙◌, false, List, [], ◌∷◌, ◌++◌, length, ltb, arith,
  length-append, take-append, append-nil,
}
use leshiy.Prelude.Bytes.{to_be, from_be, from_be-to_be}
use leshiy.Tls.Error.{done}
use leshiy.Tls.Messages.{
  take_bytes, take_u24, certificate_entry, build_certificate, parse_certificate_list,
  parse_certificate_body, parse_certificate, build_certificate_verify, parse_certificate_verify,
  build_finished, parse_finished,
}
use leshiy.Tls.Messages.Cursor.{take_all, take_bytes-append, take_u24-to_be, parse_hs_msg-hs_msg}

length-certificate_entry :
    (cert_der : List ℕ) → length (certificate_entry cert_der) ≡ 5 + length cert_der
unfolding certificate_entry
length-certificate_entry cert_der = omega (arith, length-append cert_der (0x00 ∷ 0x00 ∷ []))

take_u24-certificate_entry :
    (pos : ℕ) (cert_der : List ℕ)
    → length cert_der < 16777000
    → take_u24 (pos, certificate_entry cert_der)
      ≡ done (length cert_der, (pos + 3, cert_der ++ (0x00 ∷ 0x00 ∷ [])))
unfolding certificate_entry
take_u24-certificate_entry pos cert_der h =
    take_u24-to_be pos (length cert_der) (cert_der ++ (0x00 ∷ 0x00 ∷ [])) (omega arith)

take_bytes_all :
    (pos : ℕ) (xs : List ℕ) → take_bytes (pos, xs) (length xs) ≡ done (xs, (pos + length xs, []))
take_bytes_all pos xs =
    ap (λ (ys : List ℕ). take_bytes (pos, ys) (length xs)) (sym (append-nil xs))
    ∙ take_bytes-append pos (length xs) xs [] refl

parse_certificate_list-entry :
    (pos : ℕ) (cert_der : List ℕ)
    → length cert_der < 16777000
    → parse_certificate_list
        (pos, to_be 3 (length (certificate_entry cert_der)) ++ certificate_entry cert_der)
      ≡ done cert_der
unfolding parse_certificate_list
parse_certificate_list-entry pos cert_der h =
    let entry = certificate_entry cert_der in
    let short : length entry < 16777216 = omega (arith, length-certificate_entry cert_der) in
    let within : ltb (length (cert_der ++ (0x00 ∷ 0x00 ∷ []))) (length cert_der) ≡ false =
      ground (arith, length-append cert_der (0x00 ∷ 0x00 ∷ [])) in
    rw
      (
        take_u24-to_be pos (length entry) entry short,
        take_bytes_all (pos + 3) entry,
        take_u24-certificate_entry (pos + 3) cert_der h,
        within,
        take-append cert_der (0x00 ∷ 0x00 ∷ []) (length cert_der) refl,
      )
      refl

parse_certificate-build :
    (cert_der rest : List ℕ)
    → length cert_der < 16777000
    → parse_certificate (build_certificate cert_der ++ rest) ≡ done cert_der
unfolding parse_certificate build_certificate parse_certificate_body
parse_certificate-build cert_der rest h =
    let entry = certificate_entry cert_der in
    let size : length entry ≡ 5 + length cert_der = length-certificate_entry cert_der in
    let long : ltb (length (to_be 3 (length entry) ++ entry)) 3 ≡ false = ground arith in
    rw
      (
        parse_hs_msg-hs_msg 0x0b ((0x00 ∷ []) ++ (to_be 3 (length entry) ++ entry)) rest
            (omega (arith, size)),
        long,
      )
      (parse_certificate_list-entry 1 cert_der h)

parse_certificate_verify-build :
    (alg : ℕ) (signature rest : List ℕ)
    → alg < 65536
    → length signature < 65536
    → parse_certificate_verify (build_certificate_verify alg signature ++ rest)
      ≡ done (alg, signature)
unfolding parse_certificate_verify build_certificate_verify
parse_certificate_verify-build alg signature rest a s =
    let body = to_be 2 alg ++ (to_be 2 (length signature) ++ signature) in
    let kind : from_be (to_be 2 alg) ≡ alg = from_be-to_be 2 alg a in
    let len : from_be (to_be 2 (length signature)) ≡ length signature =
      from_be-to_be 2 (length signature) s in
    let head : ltb (length body) 4 ≡ false = ground arith in
    let whole : ltb (length body) (4 + length signature) ≡ false = ground arith in
    rw
      (parse_hs_msg-hs_msg 0x0f body rest (omega arith), head, kind, len, whole, take_all signature)
      refl

-- A certificate, a signature with its algorithm and the verify data of a Finished, short enough for
-- the length fields around them, are each parsed back from the message built of them, whatever
-- bytes follow it.
pub parse-build_messages :
    (cert_der signature verify_data rest : List ℕ) (alg : ℕ)
    → length cert_der < 16777000
    → length signature < 65536
    → alg < 65536
    → length verify_data < 16777216
    → (parse_certificate (build_certificate cert_der ++ rest) ≡ done cert_der)
      × (parse_certificate_verify (build_certificate_verify alg signature ++ rest)
          ≡ done (alg, signature))
      × (parse_finished (build_finished verify_data ++ rest) ≡ done verify_data)
unfolding parse_finished build_finished
parse-build_messages cert_der signature verify_data rest alg c s a d = (
  parse_certificate-build cert_der rest c,
  parse_certificate_verify-build alg signature rest a s,
  rw (parse_hs_msg-hs_msg 0x14 verify_data rest d) refl,
)
