-- ===== src/Tls/Builder/Fields.antt =====
-- The fields that the server extracts from a built ClientHello.
use leshiy.Prelude.{
  ℕ, ◌<◌, ◌≡◌, ◌≢◌, refl, ap, sym, ◌∙◌, Bool-cases, ◌⊎◌, inl, inr, true, false, none, some, List,
  [], ◌∷◌, ◌++◌, length, take_exact, ltb, leb, ◌==◌, arith,
}
use leshiy.Prelude.Bytes.{to_be}
use leshiy.Tls.Error.{done}
use leshiy.Tls.Parser.{u8-cons, u16-to_be, skip-append}
use leshiy.Tls.Camouflage.{Digest, derive_grease}
use leshiy.Tls.Camouflage.Values.{derive_grease-IsSmall, derive_grease-ne, IsSmall}
use leshiy.Tls.Camouflage.Shuffle.{count}
use leshiy.Tls.ClientHello.{
  Extracted, read_extension, extensions_loop, read_extensions, after_session_id,
}
use leshiy.Tls.Fingerprint.{Profile}
use leshiy.Tls.Builder.{
  HelloInput, u16s, regrease, without_grease, build_extension, order, ext_bytes, hello_tail,
}
use leshiy.Tls.Builder.Extensions.{extensions_loop-block, visits, visit, read_extension-build}
use leshiy.Tls.Builder.Sent.{
  IsHello, sent_types, sent_count, All-sent, length-regrease, not_grease_name, not_grease_shares,
}

module _ (lossy : List ℕ → List ℕ) (sha256 : Digest) (profile : Profile) (input : HelloInput)
    (v : IsHello sha256 profile input) where
  abbrev grease_small : IsSmall (derive_grease input.entropy)
  grease_small = derive_grease-IsSmall input.entropy v.entropy_bytes

  abbrev body_of : ℕ → List ℕ
  body_of = build_extension sha256 profile input

  read_body :
      (t : ℕ) (found : Extracted)
      → read_extension lossy t (body_of t) found ≡ done (visit lossy input t found)
  read_body =
      read_extension-build lossy sha256 profile input v.sni_fits grease_small.group_fits
        v.x25519_length v.mlkem_length

  -- An extension of a type that says nothing.
  read_other :
      (t : ℕ) (body : List ℕ) (found : Extracted)
      → t ≢ 0
      → t ≢ 0x33
      → read_extension lossy t body found ≡ done found
  unfolding read_extension
  read_other t body found a b =
      let first : (t == 0) ≡ false = ground (arith, a) in
      let second : (t == 0x33) ≡ false = ground (arith, b) in rw (first, second) refl

  abbrev told : List ℕ → Extracted → Extracted
  told = visits (read_extension lossy) (visit lossy input)

  visit_other : (t : ℕ) (found : Extracted) → t ≢ 0 → t ≢ 0x33 → visit lossy input t found ≡ found
  visit_other t found a b =
      let first : (t == 0) ≡ false = ground (arith, a) in
      let second : (t == 0x33) ≡ false = ground (arith, b) in rw (first, second) refl

  loop-ext_bytes :
      (found : Extracted)
      → extensions_loop
          (read_extension lossy)
          (length (ext_bytes sha256 profile input))
          (ext_bytes sha256 profile input)
          found
        ≡ done (told (sent_types sha256 profile input) found)
  unfolding ext_bytes
  loop-ext_bytes found =
      let g = derive_grease input.entropy in
      let a = derive_grease-ne input.entropy 0 v.entropy_bytes not_grease_name in
      let b = derive_grease-ne input.entropy 0x33 v.entropy_bytes not_grease_shares in
      extensions_loop-block (read_extension lossy) (visit lossy input) body_of g.ext1 g.ext2
        (0x00 ∷ []) (order sha256 input.entropy (without_grease profile.extensions)) found read_body
        (λ e. read_other g.ext1 [] e a.0 b.0 ∙ ap done (sym (visit_other g.ext1 e a.0 b.0)))
        (λ e.
          read_other g.ext2 (0x00 ∷ []) e a.1 b.1 ∙ ap done (sym (visit_other g.ext2 e a.1 b.1)))
        grease_small.ext1_fits grease_small.ext2_fits (All-sent sha256 profile input v.types_fit)
        v.ext_fit

  -- Once found, the name and the shares stay; each is found at a type that carries it.
  carry-sni :
      (t : ℕ) (ts : List ℕ) (found : Extracted)
      → (found.sni ≡ some (lossy input.sni)) ⊎ (0 < count 0x0000 (t ∷ ts))
      → ((visit lossy input t found).sni ≡ some (lossy input.sni)) ⊎ (0 < count 0x0000 ts)
  carry-sni t ts found h = elim (Bool-cases (t == 0x0000)) [
    | inl named ↦ rw named (inl refl)
    | inr other ↦ elim h [
      | inr later ↦ inr (ground (arith, later, other))
      | inl known ↦ elim (Bool-cases (t == 0x0033)) [
        | inl shares ↦ rw (other, shares) (inl known)
        | inr rest ↦ rw (other, rest) (inl known)
      ]
    ]
  ]

  visits-sni :
      (ts : List ℕ) (found : Extracted)
      → (found.sni ≡ some (lossy input.sni)) ⊎ (0 < count 0x0000 ts)
      → (told ts found).sni ≡ some (lossy input.sni)
  unfolding visits
  visits-sni [] found (inl h) = h
  visits-sni [] found (inr h) = absurd (omega arith)
  visits-sni (t ∷ ts) found h = visits-sni ts (visit lossy input t found) (carry-sni t ts found h)

  carry-share :
      (t : ℕ) (ts : List ℕ) (found : Extracted)
      → (found.key_share_x25519 ≡ some input.x25519_pub) ⊎ (0 < count 0x0033 (t ∷ ts))
      → ((visit lossy input t found).key_share_x25519 ≡ some input.x25519_pub)
        ⊎ (0 < count 0x0033 ts)
  carry-share t ts found h = elim (Bool-cases (t == 0x0000)) [
    | inl named ↦ elim h [
      | inr later ↦ inr (ground (arith, later, named))
      | inl known ↦ rw named (inl known)
    ]
    | inr other ↦ elim (Bool-cases (t == 0x0033)) [
      | inl shares ↦ rw (other, shares) (inl refl)
      | inr rest ↦ elim h [
        | inr later ↦ inr (ground (arith, later, rest))
        | inl known ↦ rw (other, rest) (inl known)
      ]
    ]
  ]

  visits-share :
      (ts : List ℕ) (found : Extracted)
      → (found.key_share_x25519 ≡ some input.x25519_pub) ⊎ (0 < count 0x0033 ts)
      → (told ts found).key_share_x25519 ≡ some input.x25519_pub
  unfolding visits
  visits-share [] found (inl h) = h
  visits-share [] found (inr h) = absurd (omega arith)
  visits-share (t ∷ ts) found h =
      visits-share ts (visit lossy input t found) (carry-share t ts found h)

  -- The fields behind the session id of the ClientHello built.
  pub after_session_id-hello_tail :
      (total : ℕ)
      → (found : Extracted) × (after_session_id lossy total (hello_tail sha256 profile input)
          ≡ done found)
        × (found.sni ≡ some (lossy input.sni))
        × (found.key_share_x25519 ≡ some input.x25519_pub)
  unfolding after_session_id hello_tail read_extensions
  after_session_id-hello_tail total =
      let ts = sent_types sha256 profile input in
      let nothing : Extracted = record {
        key_share_x25519 = none;
        key_share_mlkem = none;
        sni = none;
      } in
      let suites = u16s (regrease (derive_grease input.entropy).cipher profile.cipher_suites) in
      let suites_fit : length suites < 65536 = omega (
        arith,
        v.suites_fit,
        length-regrease (derive_grease input.entropy).cipher profile.cipher_suites,
      ) in
      let ext = ext_bytes sha256 profile input in
      let t2 = to_be 2 (length ext) ++ ext in
      let long : leb 2 (length t2) ≡ true = ground arith in
      let whole : ltb (length ext) (length ext) ≡ false = ground arith in
      (
        told ts nothing,
        rw
            (
              u16-to_be (length suites) (suites ++ ((0x01 ∷ 0x00 ∷ []) ++ t2)) suites_fit,
              skip-append suites ((0x01 ∷ 0x00 ∷ []) ++ t2) (length suites) refl,
              u8-cons 0x01 (0x00 ∷ t2),
              skip-append (0x00 ∷ []) t2 1 refl,
              long,
              u16-to_be (length ext) ext v.ext_fit,
              whole,
              take_exact ext (length ext) refl,
            )
            (loop-ext_bytes nothing),
        visits-sni ts nothing (
            inr (
              omega (
                arith,
                v.names_server,
                sent_count sha256 profile input 0x0000 v.entropy_bytes not_grease_name,
              ))),
        visits-share ts nothing (
            inr (
              omega (
                arith,
                v.offers_shares,
                sent_count sha256 profile input 0x0033 v.entropy_bytes not_grease_shares,
              ))),
      )
