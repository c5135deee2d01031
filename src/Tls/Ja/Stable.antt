-- ===== src/Tls/Ja/Stable.antt =====
-- The fingerprint of a built ClientHello is the profile's.
use leshiy.Prelude.{
  ℕ, ◌≡◌, refl, ap, ◌∙◌, Bool-cases, inl, inr, true, false, List, [], ◌∷◌, ◌++◌, map, ◌==◌,
  if◌then◌else◌, arith,
}
use leshiy.Tls.Error.{done, ◌>>=◌}
use leshiy.Tls.Camouflage.{is_grease, Digest, derive_grease}
use leshiy.Tls.Camouflage.Values.{derive_grease-is_grease}
use leshiy.Tls.Camouflage.Shuffle.{count}
use leshiy.Tls.Fingerprint.{Profile}
use leshiy.Tls.Builder.{HelloInput, regrease, without_grease, build_client_hello_with_entropy}
use leshiy.Tls.Builder.Extensions.{visits}
use leshiy.Tls.Builder.Sent.{IsHello, sent_types, sent_count, not_grease_name}
use leshiy.Tls.Ja.{ClientHelloView, read_view, empty_view, parse, ja4, ja4_r}
use leshiy.Tls.Ja.View.{IsProfile, add_to_view}
use leshiy.Tls.Ja.Parsed.{parse-build_client_hello_with_entropy}
use leshiy.Tls.Ja.Visits.{
  times, times_once, visits-list, visits-fixed, visits-extensions, visits-has_sni,
}
use leshiy.Tls.Ja.Alike.{
  IsAlike, without_grease-regrease, count-without_grease, ja4_r-alike, ja4-alike,
}

-- The profile's own lists as a view, placeholders included.
abbrev pub profile_view : (List ℕ → List ℕ) → Profile → ClientHelloView
profile_view lossy profile = record {
  legacy_version = 0x0303;
  cipher_suites = profile.cipher_suites;
  extensions = profile.extensions;
  supported_groups = profile.supported_groups;
  ec_point_formats = profile.ec_point_formats;
  sig_algs = profile.sig_algs;
  alpn = map lossy profile.alpn;
  has_sni = true;
  supported_versions = profile.supported_versions;
}

-- The extensions whose bodies the fingerprint reads stand in the profile once.
pub record HasOnce (profile : Profile) : Type 0 where
  pub sig_algs_once : count 0x000d (without_grease profile.extensions) ≡ 1
  pub alpn_once : count 0x0010 (without_grease profile.extensions) ≡ 1
  pub versions_once : count 0x002b (without_grease profile.extensions) ≡ 1

plain_sig_algs : is_grease 0x000d ≡ false
unfolding is_grease
plain_sig_algs = refl

plain_alpn : is_grease 0x0010 ≡ false
unfolding is_grease
plain_alpn = refl

plain_versions : is_grease 0x002b ≡ false
unfolding is_grease
plain_versions = refl

module _ (lossy : List ℕ → List ℕ) (sha256 : Digest) (profile : Profile) (input : HelloInput)
    (v : IsHello sha256 profile input) (p : IsProfile profile) (once : HasOnce profile) where
  abbrev add : ℕ → ClientHelloView → ClientHelloView
  add =
      add_to_view lossy profile (derive_grease input.entropy).group
        (derive_grease input.entropy).version

  abbrev types : List ℕ
  types = sent_types sha256 profile input

  abbrev start : ClientHelloView
  start = empty_view 0x0303 (regrease (derive_grease input.entropy).cipher profile.cipher_suites)

  abbrev view : ClientHelloView
  view = visits (read_view lossy) add types start

  add_extensions :
      (t : ℕ) (seen : ClientHelloView) → (add t seen).extensions ≡ seen.extensions ++ (t ∷ [])
  add_extensions t seen = ground arith

  add_suites : (t : ℕ) (seen : ClientHelloView) → (add t seen).cipher_suites ≡ seen.cipher_suites
  add_suites t seen = ground arith

  add_has_sni :
      (t : ℕ) (seen : ClientHelloView)
      → (add t seen).has_sni ≡ (if 0x0000 == t then true else seen.has_sni)
  add_has_sni t seen = ground arith

  add_sig_algs :
      (t : ℕ) (seen : ClientHelloView)
      → (add t seen).sig_algs
        ≡ (if 0x000d == t then seen.sig_algs ++ profile.sig_algs else seen.sig_algs)
  add_sig_algs t seen = ground arith

  add_alpn :
      (t : ℕ) (seen : ClientHelloView)
      → (add t seen).alpn ≡ (if 0x0010 == t then seen.alpn ++ map lossy profile.alpn else seen.alpn)
  add_alpn t seen = ground arith

  abbrev versions : List ℕ
  versions = regrease (derive_grease input.entropy).version profile.supported_versions

  add-versions :
      (t : ℕ) (seen : ClientHelloView)
      → (add t seen).supported_versions
        ≡ (if 0x002b == t then seen.supported_versions ++ versions else seen.supported_versions)
  add-versions t seen = ground arith

  sent_once :
      (t : ℕ)
      → is_grease t ≡ false
      → count t (without_grease profile.extensions) ≡ 1
      → count t types ≡ 1
  sent_once t plain one = sent_count sha256 profile input t v.entropy_bytes plain ∙ one

  same_sent : (n : ℕ) → count n (without_grease types) ≡ count n (without_grease profile.extensions)
  same_sent n = elim (Bool-cases (is_grease n)) [
    | inl placeholder ↦
        rw (count-without_grease n types, count-without_grease n profile.extensions, placeholder)
          refl
    | inr real ↦
        rw (count-without_grease n types, real)
          (sent_count sha256 profile input n v.entropy_bytes real)
  ]

  -- The list that the one extension of a type leaves.
  listed {ℓ} :
      {A : Type ℓ} (field : ClientHelloView → List A) (key : ℕ) (xs : List A)
      → ((t : ℕ) (seen : ClientHelloView)
          → field (add t seen) ≡ (if key == t then field seen ++ xs else field seen))
      → field start ≡ []
      → is_grease key ≡ false
      → count key (without_grease profile.extensions) ≡ 1
      → field view ≡ xs
  listed field key xs step none_yet plain one =
      visits-list (read_view lossy) add field key xs step types start
      ∙ ap (λ l. l ++ times (count key types) xs) none_yet
      ∙ times_once (count key types) xs (sent_once key plain one)

  view-IsAlike : IsAlike view (profile_view lossy profile)
  view-IsAlike =
      let greased = derive_grease-is_grease input.entropy v.entropy_bytes in
      record {
        suites_alike =
            ap without_grease
              (visits-fixed (read_view lossy) add (λ w. w.cipher_suites) add_suites types start)
            ∙ without_grease-regrease (derive_grease input.entropy).cipher profile.cipher_suites
                greased.0;
        extensions_alike = λ n.
            ap (λ l. count n (without_grease l))
              (visits-extensions (read_view lossy) add add_extensions types start)
            ∙ same_sent n;
        sig_algs_alike =
            listed (λ w. w.sig_algs) 0x000d profile.sig_algs add_sig_algs refl plain_sig_algs
              once.sig_algs_once;
        alpn_alike =
            listed (λ w. w.alpn) 0x0010 (map lossy profile.alpn) add_alpn refl plain_alpn
              once.alpn_once;
        has_sni_alike = visits-has_sni (read_view lossy) add add_has_sni types start (
            inr (
              omega (
                arith,
                v.names_server,
                sent_count sha256 profile input 0x0000 v.entropy_bytes not_grease_name,
              )));
        versions_alike =
            ap without_grease (
              listed (λ w. w.supported_versions) 0x002b versions add-versions refl plain_versions
                once.versions_once)
            ∙ without_grease-regrease (derive_grease input.entropy).version
                profile.supported_versions greased.1;
      }

  -- The parser reads the ClientHello that is built of a profile, and the JA4 fingerprint of what it
  -- reads is that of the profile's own lists, raw or hashed, whatever the GREASE values and the
  -- order of the extensions that the entropy gives. The profile's lists fit their widths, the
  -- three extensions whose bodies the fingerprint reads stand in it once, and the keys and the
  -- random have their lengths.
  pub ja4-build_client_hello_with_entropy :
      ((parse lossy (build_client_hello_with_entropy sha256 profile input) >>= λ seen.
      done (ja4_r seen))
        ≡ done (ja4_r (profile_view lossy profile)))
      × ((parse lossy (build_client_hello_with_entropy sha256 profile input) >>= λ seen.
            done (ja4 sha256 seen))
          ≡ done (ja4 sha256 (profile_view lossy profile)))
  ja4-build_client_hello_with_entropy =
      let read = parse-build_client_hello_with_entropy lossy sha256 profile input v p in
      (
        rw (read, ja4_r-alike view (profile_view lossy profile) view-IsAlike) refl,
        rw (read, ja4-alike view (profile_view lossy profile) view-IsAlike sha256) refl,
      )
