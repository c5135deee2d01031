-- ===== src/Tls/Ja/View.antt =====
-- The ClientHello that is built of a profile, as the parser views it.
use leshiy.Prelude.{
  ℕ, suc, ◌*◌, ◌/◌, ◌%◌, ◌<◌, ◌≡◌, refl, ap, Bool-cases, inl, inr, true, List, [], ◌∷◌, ◌++◌, map,
  All, length, ◌==◌, if◌then◌else◌, arith,
}
use leshiy.Tls.Error.{done}
use leshiy.Tls.Parser.{u8-cons, u16-to_be}
use leshiy.Tls.Camouflage.{is_grease, Digest, derive_grease}
use leshiy.Tls.Fingerprint.{Profile}
use leshiy.Tls.Builder.{
  HelloInput, u16s, alpn_protos, regrease, list_u16_with_u16len, build_extension,
}
use leshiy.Tls.Ja.{ClientHelloView, read_view}
use leshiy.Tls.Ja.Reading.{length-u16s, read_u16s-All, read_u8s_whole, FitByte, read_protocols-alpn}

-- The profile's lists hold 16-bit numbers, and fit the lengths in front of them.
pub record IsProfile (profile : Profile) : Type 0 where
  pub suites_small : All (λ x. x < 65536) profile.cipher_suites
  pub groups_small : All (λ x. x < 65536) profile.supported_groups
  pub groups_fit : length profile.supported_groups < 32768
  pub formats_fit : length profile.ec_point_formats < 256
  pub sig_algs_small : All (λ x. x < 65536) profile.sig_algs
  pub sig_algs_fit : length profile.sig_algs < 32768
  pub versions_small : All (λ x. x < 65536) profile.supported_versions
  pub versions_fit : length profile.supported_versions < 128
  pub protocols_fit : FitByte profile.alpn
  pub alpn_fit : length (alpn_protos profile.alpn) < 65536

pub All-regrease :
    (g : ℕ) (xs : List ℕ)
    → g < 65536
    → All (λ x. x < 65536) xs
    → All (λ x. x < 65536) (regrease g xs)
All-regrease g [] small h = tt
All-regrease g (x ∷ xs) small h = elim (Bool-cases (is_grease x)) [
  | inl placeholder ↦ rw placeholder (small, All-regrease g xs small h.1)
  | inr real ↦ rw real (h.0, All-regrease g xs small h.1)
]

pub length-regrease : (g : ℕ) (xs : List ℕ) → length (regrease g xs) ≡ length xs
length-regrease g [] = refl
length-regrease g (x ∷ xs) = ap suc (length-regrease g xs)

-- What an extension of each type adds to the view, the connection's GREASE values given.
abbrev pub add_to_view : (List ℕ → List ℕ) → Profile → ℕ → ℕ → ℕ → ClientHelloView → ClientHelloView
add_to_view lossy profile group version t seen =
    let view = record seen { extensions = seen.extensions ++ (t ∷ []) } in
    if t == 0x0000
    then record view { has_sni = true }
    else if t == 0x000a
    then record view {
      supported_groups = seen.supported_groups ++ regrease group profile.supported_groups;
    }
    else if t == 0x000b
    then record view { ec_point_formats = seen.ec_point_formats ++ profile.ec_point_formats }
    else if t == 0x000d
    then record view { sig_algs = seen.sig_algs ++ profile.sig_algs }
    else if t == 0x0010
    then record view { alpn = seen.alpn ++ map lossy profile.alpn }
    else if t == 0x002b
    then record view {
      supported_versions = seen.supported_versions ++ regrease version profile.supported_versions;
    }
    else view

module _ (lossy : List ℕ → List ℕ) (sha256 : Digest) (profile : Profile) (input : HelloInput)
    (p : IsProfile profile) (group_small : (derive_grease input.entropy).group < 65536)
    (version_small : (derive_grease input.entropy).version < 65536) where
  abbrev body_of : ℕ → List ℕ
  body_of = build_extension sha256 profile input

  abbrev add : ℕ → ClientHelloView → ClientHelloView
  add =
      add_to_view lossy profile (derive_grease input.entropy).group
        (derive_grease input.entropy).version

  pub view_groups :
      (seen : ClientHelloView)
      → read_view lossy 0x000a (body_of 0x000a) seen ≡ done (add 0x000a seen)
  unfolding read_view build_extension list_u16_with_u16len
  view_groups seen =
      let xs = regrease (derive_grease input.entropy).group profile.supported_groups in
      let size = length-regrease (derive_grease input.entropy).group profile.supported_groups in
      rw
        (
          u16-to_be (length (u16s xs)) (u16s xs)
              (omega (arith, length-u16s xs, size, p.groups_fit)),
          read_u16s-All xs (length (u16s xs) / 2)
              (All-regrease (derive_grease input.entropy).group profile.supported_groups group_small
                p.groups_small)
              (omega (arith, length-u16s xs)),
        )
        refl

  pub view_formats :
      (seen : ClientHelloView)
      → read_view lossy 0x000b (body_of 0x000b) seen ≡ done (add 0x000b seen)
  unfolding read_view build_extension
  view_formats seen =
      let low : length profile.ec_point_formats % 256 ≡ length profile.ec_point_formats =
        omega (arith, p.formats_fit) in
      rw
        (
          low,
          u8-cons (length profile.ec_point_formats) profile.ec_point_formats,
          read_u8s_whole profile.ec_point_formats,
        )
        refl

  pub view_sig_algs :
      (seen : ClientHelloView)
      → read_view lossy 0x000d (body_of 0x000d) seen ≡ done (add 0x000d seen)
  unfolding read_view build_extension list_u16_with_u16len
  view_sig_algs seen =
      let xs = profile.sig_algs in
      rw
        (
          u16-to_be (length (u16s xs)) (u16s xs) (omega (arith, length-u16s xs, p.sig_algs_fit)),
          read_u16s-All xs (length (u16s xs) / 2) p.sig_algs_small (omega (arith, length-u16s xs)),
        )
        refl

  pub view_alpn :
      (seen : ClientHelloView)
      → read_view lossy 0x0010 (body_of 0x0010) seen ≡ done (add 0x0010 seen)
  unfolding read_view build_extension
  view_alpn seen =
      let protos = alpn_protos profile.alpn in
      rw
        (
          u16-to_be (length protos) protos p.alpn_fit,
          read_protocols-alpn lossy profile.alpn (length protos) p.protocols_fit (omega arith),
        )
        refl

  pub view_versions :
      (seen : ClientHelloView)
      → read_view lossy 0x002b (body_of 0x002b) seen ≡ done (add 0x002b seen)
  unfolding read_view build_extension
  view_versions seen =
      let n = length profile.supported_versions in
      let xs = regrease (derive_grease input.entropy).version profile.supported_versions in
      let low : n * 2 % 256 ≡ n * 2 = omega (arith, p.versions_fit) in
      rw
        (
          low,
          u8-cons (n * 2) (u16s xs),
          read_u16s-All xs (n * 2 / 2)
              (All-regrease (derive_grease input.entropy).version profile.supported_versions
                version_small p.versions_small)
              (omega (
                arith,
                length-regrease (derive_grease input.entropy).version profile.supported_versions,
              )),
        )
        refl
