-- ===== src/Tls/Builder/Extensions.antt =====
-- The loop over the extensions of a built ClientHello.
use leshiy.Prelude.{
  ℕ, zero, suc, ◌+◌, ◌≤◌, ◌<◌, ◌≡◌, refl, ap, ◌∙◌, Bool-cases, inl, inr, false, some, List, [], ◌∷◌,
  ◌++◌, All, length, length-append, take-append, drop-append, ltb, ◌==◌, if◌then◌else◌, arith,
}
use leshiy.Prelude.Bytes.{to_be, from_be, from_be-to_be}
use leshiy.Tls.Error.{Outcome, done, ◌>>=◌}
use leshiy.Tls.Parser.{u8-cons, u16-to_be, take_slice_all}
use leshiy.Tls.Camouflage.{Digest, derive_grease}
use leshiy.Tls.ClientHello.{Extracted, read_sni, read_extension, extensions_loop}
use leshiy.Tls.Fingerprint.{Profile}
use leshiy.Tls.Builder.{
  HelloInput, sni_body, key_share_entries, build_extension, extension, extensions_of,
}
use leshiy.Tls.Builder.Shares.{with_shares, shares_loop-entries, length-key_share_entries}

pub extensions_loop-extension {ℓ} :
    {A : Type ℓ} (read : ℕ → List ℕ → A → Outcome A) (f etype : ℕ) (body more : List ℕ) (found : A)
    → etype < 65536
    → length body < 65536
    → extensions_loop read (suc f) (extension etype body more) found
      ≡ (read etype body found >>= λ next. extensions_loop read f more next)
unfolding extensions_loop extension
extensions_loop-extension read f etype body more found small fits =
    let kind : from_be (to_be 2 etype) ≡ etype = from_be-to_be 2 etype small in
    let len : from_be (to_be 2 (length body)) ≡ length body = from_be-to_be 2 (length body) fits in
    let head : ltb (length (to_be 2 etype ++ (to_be 2 (length body) ++ (body ++ more)))) 4 ≡ false =
      ground arith in
    let whole : ltb (length (body ++ more)) (length body) ≡ false =
      ground (arith, length-append body more) in
    rw
      (
        head,
        kind,
        len,
        whole,
        take-append body more (length body) refl,
        drop-append body more (length body) refl,
      )
      refl

extensions_loop-nil {ℓ} :
    {A : Type ℓ} (read : ℕ → List ℕ → A → Outcome A) (f : ℕ) (found : A)
    → extensions_loop read f [] found ≡ done found
unfolding extensions_loop
extensions_loop-nil read zero found = refl
extensions_loop-nil read (suc f) found = refl

pub length-extension :
    (t : ℕ) (body more : List ℕ) → length (extension t body more) ≡ 4 + length body + length more
unfolding extension
length-extension t body more = omega (arith, length-append body more)

-- Over a block of extensions, of which `visit` says what each does.
module _ {ℓ} {A : Type ℓ} (read : ℕ → List ℕ → A → Outcome A) (visit : ℕ → A → A) where
  unfoldable pub visits : List ℕ → A → A
  visits [] found = found
  visits (t ∷ ts) found = visits ts (visit t found)

  extensions_loop-of :
      (body : ℕ → List ℕ) (fuel last : ℕ) (end : List ℕ) (ts : List ℕ) (found : A)
      → ((t : ℕ) (a : A) → read t (body t) a ≡ done (visit t a))
      → ((a : A) → read last end a ≡ done (visit last a))
      → last < 65536
      → All (λ t. t < 65536) ts
      → length (extensions_of body ts (extension last end [])) ≤ fuel
      → fuel < 65536
      → extensions_loop read fuel (extensions_of body ts (extension last end [])) found
        ≡ done (visits (ts ++ (last ∷ [])) found)
  unfolding extensions_of visits
  extensions_loop-of body zero last end [] found each ends a small enough fits =
      absurd (omega (arith, length-extension last end []))
  extensions_loop-of body zero last end (t ∷ ts) found each ends a small enough fits =
      absurd
        (omega (arith, length-extension t (body t) (extensions_of body ts (extension last end []))))
  extensions_loop-of body (suc f) last end [] found each ends a small enough fits =
      extensions_loop-extension read f last end [] found a
        (omega (arith, length-extension last end []))
      ∙ rw (ends found) (extensions_loop-nil read f (visit last found))
  extensions_loop-of body (suc f) last end (t ∷ ts) found each ends a small enough fits =
      let more = extensions_of body ts (extension last end []) in
      let size = length-extension t (body t) more in
      extensions_loop-extension read f t (body t) more found small.0 (omega (arith, size))
      ∙ rw (each t found) (
          extensions_loop-of body f last end ts (visit t found) each ends a small.1
            (omega (arith, size)) (omega arith))

  -- The whole block: the leading extension, those of the types given and the trailing one.
  pub extensions_loop-block :
      (body : ℕ → List ℕ) (first last : ℕ) (end : List ℕ) (ts : List ℕ) (found : A)
      → ((t : ℕ) (a : A) → read t (body t) a ≡ done (visit t a))
      → ((a : A) → read first [] a ≡ done (visit first a))
      → ((a : A) → read last end a ≡ done (visit last a))
      → first < 65536
      → last < 65536
      → All (λ t. t < 65536) ts
      → length (extension first [] (extensions_of body ts (extension last end []))) < 65536
      → extensions_loop read
          (length (extension first [] (extensions_of body ts (extension last end []))))
          (extension first [] (extensions_of body ts (extension last end [])))
          found
        ≡ done (visits (first ∷ (ts ++ (last ∷ []))) found)
  unfolding visits
  extensions_loop-block body first last end ts found each starts ends a b small fits =
      let rest = extensions_of body ts (extension last end []) in
      let size : length (extension first [] rest) ≡ suc (3 + length rest) =
        omega (arith, length-extension first [] rest) in
      ap (λ (n : ℕ). extensions_loop read n (extension first [] rest) found) size
      ∙ extensions_loop-extension read (3 + length rest) first [] rest found a (omega arith)
      ∙ rw (starts found) (
          extensions_loop-of body (3 + length rest) last end ts (visit first found) each ends b
            small (omega arith) (omega (arith, fits, size)))

read_sni-body :
    (lossy : List ℕ → List ℕ) (host : List ℕ) (found : Extracted)
    → length host < 65500
    → read_sni lossy (sni_body host) found ≡ done (record found { sni = some (lossy host) })
unfolding read_sni sni_body
read_sni-body lossy host found h =
    let named = to_be 2 (length host) ++ host in
    rw
      (
        u16-to_be (1 + 2 + length host) ((0x00 ∷ []) ++ named) (omega arith),
        u8-cons 0x00 named,
        u16-to_be (length host) host (omega arith),
        take_slice_all host (length host) refl,
      )
      refl

-- What an extension of each type tells the server.
abbrev pub visit : (List ℕ → List ℕ) → HelloInput → ℕ → Extracted → Extracted
visit lossy input t found =
    if t == 0x0000
    then record found { sni = some (lossy input.sni) }
    else if t == 0x0033
    then with_shares input.x25519_pub input.mlkem_ek found
    else found

module _ (lossy : List ℕ → List ℕ) (sha256 : Digest) (profile : Profile) (input : HelloInput)
    (host_fits : length input.sni < 65500)
    (group_fits : (derive_grease input.entropy).group < 65536) (x : 32 ≡ length input.x25519_pub)
    (m : 1184 ≡ length input.mlkem_ek) where
  read_key_share :
      (found : Extracted)
      → read_extension lossy 0x0033 (build_extension sha256 profile input 0x0033) found
        ≡ done (with_shares input.x25519_pub input.mlkem_ek found)
  unfolding read_extension build_extension
  read_key_share found =
      let grease = derive_grease input.entropy in
      let entries = key_share_entries grease.group input.x25519_pub input.mlkem_ek in
      let size : length entries ≡ suc (suc (suc 1258)) =
        length-key_share_entries grease.group input.x25519_pub input.mlkem_ek x m in
      rw (u16-to_be (length entries) entries (omega (arith, size)), size)
        (shares_loop-entries 1258 grease.group input.x25519_pub input.mlkem_ek found group_fits x m)

  pub read_extension-build :
      (t : ℕ) (found : Extracted)
      → read_extension lossy t (build_extension sha256 profile input t) found
        ≡ done (visit lossy input t found)
  unfolding read_extension build_extension
  read_extension-build t found = elim (Bool-cases (t == 0x0000)) [
    | inl named ↦
        let same : t ≡ 0 = ground (arith, named) in
        rw same (read_sni-body lossy input.sni found host_fits)
    | inr other ↦ elim (Bool-cases (t == 0x0033)) [
      | inl shares ↦ let same : t ≡ 0x33 = ground (arith, shares) in rw same (read_key_share found)
      | inr rest ↦ rw (other, rest) refl
    ]
  ]
