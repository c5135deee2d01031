-- ===== src/Tls/Ja/Parsed.antt =====
-- The whole ClientHello that is built, parsed.
use leshiy.Prelude.{
  ℕ, ◌/◌, ◌%◌, ◌<◌, ◌≡◌, ◌≢◌, refl, Bool-cases, inl, inr, true, false, List, [], ◌∷◌, ◌++◌, length,
  take_exact, ltb, leb, ◌==◌, arith,
}
use leshiy.Prelude.Bytes.{IsBytes, to_be}
use leshiy.Tls.Error.{done}
use leshiy.Tls.Parser.{u8-cons, u16-cons, u24-cons, u16-to_be, skip-append}
use leshiy.Tls.Camouflage.{is_grease, Digest, derive_grease}
use leshiy.Tls.Camouflage.Values.{derive_grease-ne, derive_grease-IsSmall, IsSmall}
use leshiy.Tls.ClientHello.{extensions_loop, read_extensions}
use leshiy.Tls.Fingerprint.{Profile}
use leshiy.Tls.Builder.{
  HelloInput, u16s, regrease, without_grease, build_extension, order, hello_tail,
  build_client_hello_with_entropy, ext_bytes,
}
use leshiy.Tls.Builder.Extensions.{visits, extensions_loop-block}
use leshiy.Tls.Builder.Sent.{IsHello, sent_types, All-sent}
use leshiy.Tls.Ja.{ClientHelloView, read_view, empty_view, parse_suites, parse}
use leshiy.Tls.Ja.Reading.{length-u16s, read_u16s-u16s}
use leshiy.Tls.Ja.View.{
  IsProfile, All-regrease, length-regrease, add_to_view, view_groups, view_formats, view_sig_algs,
  view_alpn, view_versions,
}

-- A type whose body the view does not read.
abbrev pub Unread : ℕ → Type 0
Unread t = (t ≢ 0x0000) × (t ≢ 0x000a) × (t ≢ 0x000b) × (t ≢ 0x000d) × (t ≢ 0x0010) × (t ≢ 0x002b)

grease-Unread :
    (entropy : List ℕ)
    → IsBytes entropy
    → Unread (derive_grease entropy).ext1 × Unread (derive_grease entropy).ext2
unfolding is_grease
grease-Unread entropy h =
    let a = derive_grease-ne entropy 0x0000 h refl in
    let b = derive_grease-ne entropy 0x000a h refl in
    let c = derive_grease-ne entropy 0x000b h refl in
    let d = derive_grease-ne entropy 0x000d h refl in
    let e = derive_grease-ne entropy 0x0010 h refl in
    let f = derive_grease-ne entropy 0x002b h refl in
    ((a.0, b.0, c.0, d.0, e.0, f.0), (a.1, b.1, c.1, d.1, e.1, f.1))

module _ (lossy : List ℕ → List ℕ) (sha256 : Digest) (profile : Profile) (input : HelloInput)
    (v : IsHello sha256 profile input) (p : IsProfile profile) where
  abbrev add : ℕ → ClientHelloView → ClientHelloView
  add =
      add_to_view lossy profile (derive_grease input.entropy).group
        (derive_grease input.entropy).version

  read-Unread :
      (t : ℕ) (body : List ℕ) (seen : ClientHelloView)
      → Unread t
      → read_view lossy t body seen ≡ done (add t seen)
  unfolding read_view
  read-Unread t body seen (a, b, c, d, e, f) =
      let a' : (t == 0x0000) ≡ false = ground (arith, a) in
      let b' : (t == 0x000a) ≡ false = ground (arith, b) in
      let c' : (t == 0x000b) ≡ false = ground (arith, c) in
      let d' : (t == 0x000d) ≡ false = ground (arith, d) in
      let e' : (t == 0x0010) ≡ false = ground (arith, e) in
      let f' : (t == 0x002b) ≡ false = ground (arith, f) in rw (a', b', c', d', e', f') refl

  read_name :
      (seen : ClientHelloView)
      → read_view lossy 0x0000 (build_extension sha256 profile input 0x0000) seen
        ≡ done (add 0x0000 seen)
  unfolding read_view
  read_name seen = refl

  abbrev small : IsSmall (derive_grease input.entropy)
  small = derive_grease-IsSmall input.entropy v.entropy_bytes

  read_view-build :
      (t : ℕ) (seen : ClientHelloView)
      → read_view lossy t (build_extension sha256 profile input t) seen ≡ done (add t seen)
  read_view-build t seen = elim (Bool-cases (t == 0x0000)) [
    | inl hit ↦ let e : t ≡ 0x0000 = ground (arith, hit) in rw e (read_name seen)
    | inr a ↦ elim (Bool-cases (t == 0x000a)) [
      | inl hit ↦
          let e : t ≡ 0x000a = ground (arith, hit) in
          rw e (view_groups lossy sha256 profile input p small.group_fits small.version_fits seen)
      | inr b ↦ elim (Bool-cases (t == 0x000b)) [
        | inl hit ↦
            let e : t ≡ 0x000b = ground (arith, hit) in
            rw e
              (view_formats lossy sha256 profile input p small.group_fits small.version_fits seen)
        | inr c ↦ elim (Bool-cases (t == 0x000d)) [
          | inl hit ↦
              let e : t ≡ 0x000d = ground (arith, hit) in
              rw e (
                view_sig_algs lossy sha256 profile input p small.group_fits small.version_fits seen)
          | inr d ↦ elim (Bool-cases (t == 0x0010)) [
            | inl hit ↦
                let e : t ≡ 0x0010 = ground (arith, hit) in
                rw e
                  (view_alpn lossy sha256 profile input p small.group_fits small.version_fits seen)
            | inr f ↦ elim (Bool-cases (t == 0x002b)) [
              | inl hit ↦
                  let e : t ≡ 0x002b = ground (arith, hit) in
                  rw e (
                    view_versions lossy sha256 profile input p small.group_fits small.version_fits
                      seen)
              | inr g ↦ read-Unread t (build_extension sha256 profile input t) seen (
                ground (arith, a),
                ground (arith, b),
                ground (arith, c),
                ground (arith, d),
                ground (arith, f),
                ground (arith, g),
              )
            ]
          ]
        ]
      ]
    ]
  ]

  loop-ext_bytes :
      (seen : ClientHelloView)
      → extensions_loop
          (read_view lossy)
          (length (ext_bytes sha256 profile input))
          (ext_bytes sha256 profile input)
          seen
        ≡ done (visits (read_view lossy) add (sent_types sha256 profile input) seen)
  unfolding ext_bytes
  loop-ext_bytes seen =
      let g = derive_grease input.entropy in
      let unread = grease-Unread input.entropy v.entropy_bytes in
      extensions_loop-block (read_view lossy) add (build_extension sha256 profile input) g.ext1
        g.ext2 (0x00 ∷ []) (order sha256 input.entropy (without_grease profile.extensions)) seen
        read_view-build (λ w. read-Unread g.ext1 [] w unread.0)
        (λ w. read-Unread g.ext2 (0x00 ∷ []) w unread.1) small.ext1_fits small.ext2_fits
        (All-sent sha256 profile input v.types_fit) v.ext_fit

  -- The parser sees the profile's lists with the connection's GREASE values, and the types in the
  -- order sent.
  pub parse-build_client_hello_with_entropy :
      parse lossy (build_client_hello_with_entropy sha256 profile input)
      ≡ done (
          visits (read_view lossy) add (sent_types sha256 profile input) (
            empty_view 0x0303
              (regrease (derive_grease input.entropy).cipher profile.cipher_suites)))
  unfolding parse parse_suites build_client_hello_with_entropy hello_tail read_extensions
  parse-build_client_hello_with_entropy =
      let suites = regrease (derive_grease input.entropy).cipher profile.cipher_suites in
      let bytes = length (u16s suites) in
      let suites_fit : bytes < 65536 = omega (
        arith,
        v.suites_fit,
        length-u16s suites,
        length-u16s profile.cipher_suites,
        length-regrease (derive_grease input.entropy).cipher profile.cipher_suites,
      ) in
      let even : (bytes % 2 == 0) ≡ true = ground (arith, length-u16s suites) in
      let half : bytes / 2 ≡ length suites = omega (arith, length-u16s suites) in
      let ext = ext_bytes sha256 profile input in
      let t2 = to_be 2 (length ext) ++ ext in
      let t1 = (0x01 ∷ 0x00 ∷ []) ++ t2 in
      let t0 = to_be 2 bytes ++ (u16s suites ++ t1) in
      let body_length =
        length ((0x03 ∷ 0x03 ∷ []) ++ (input.random ++ ((32 ∷ []) ++ (input.random ++ t0)))) in
      let long : leb 2 (length t2) ≡ true = ground arith in
      let whole : ltb (length ext) (length ext) ≡ false = ground arith in
      rw
        (
          u8-cons 0x01 (
              to_be 3 body_length ++ (0x03 ∷ 0x03 ∷ (input.random ++ (32 ∷ (input.random ++ t0))))),
          u24-cons (body_length / 256 / 256 % 256) (body_length / 256 % 256) (body_length % 256)
              (0x03 ∷ 0x03 ∷ (input.random ++ (32 ∷ (input.random ++ t0)))),
          u16-cons 0x03 0x03 (input.random ++ (32 ∷ (input.random ++ t0))),
          skip-append input.random (32 ∷ (input.random ++ t0)) 32 v.random_length,
          u8-cons 32 (input.random ++ t0),
          skip-append input.random t0 32 v.random_length,
          u16-to_be bytes (u16s suites ++ t1) suites_fit,
          even,
          half,
          read_u16s-u16s suites t1 (
              All-regrease (derive_grease input.entropy).cipher profile.cipher_suites
                small.cipher_fits p.suites_small),
          u8-cons 0x01 (0x00 ∷ t2),
          skip-append (0x00 ∷ []) t2 1 refl,
          long,
          u16-to_be (length ext) ext v.ext_fit,
          whole,
          take_exact ext (length ext) refl,
        )
        (loop-ext_bytes (empty_view 0x0303 suites))
