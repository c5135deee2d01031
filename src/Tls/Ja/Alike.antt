-- ===== src/Tls/Ja/Alike.antt =====
-- What the JA4 fingerprint depends on: not on the order of the extensions, nor on GREASE values.
use leshiy.Prelude.{
  ℕ, ◌≡◌, refl, ap, sym, ◌∙◌, Bool-cases, inl, inr, true, not, ◌&&◌, List, [], ◌∷◌, map, length,
  ◌==◌, if◌then◌else◌, arith,
}
use leshiy.Tls.Camouflage.{is_grease, Digest}
use leshiy.Tls.Camouflage.Shuffle.{count}
use leshiy.Tls.Builder.{regrease, without_grease}
use leshiy.Tls.Ja.{
  ClientHelloView, ja4_part_a, ja4_ciphers_str, without_names, ja4_exts_str, ja4_sigalgs_str, ja4,
  ja4_r,
}
use leshiy.Tls.Ja.Text.{join, hex4}
use leshiy.Tls.Ja.Sorting.{sort_of_counts, length-sort}

pub without_grease-regrease :
    (g : ℕ) (xs : List ℕ) → is_grease g ≡ true → without_grease (regrease g xs) ≡ without_grease xs
without_grease-regrease g [] h = refl
without_grease-regrease g (x ∷ xs) h = elim (Bool-cases (is_grease x)) [
  | inl placeholder ↦ rw (placeholder, h) (without_grease-regrease g xs h)
  | inr real ↦ rw (real, real) (ap (◌∷◌ x) (without_grease-regrease g xs h))
]

pub count-without_grease :
    (v : ℕ) (xs : List ℕ) → count v (without_grease xs) ≡ (if is_grease v then 0 else count v xs)
count-without_grease v [] = ground arith
count-without_grease v (x ∷ xs) = elim (Bool-cases (v == x)) [
  | inl same ↦
      let e : v ≡ x = ground (arith, same) in rw e (ground (arith, count-without_grease x xs))
  | inr other ↦ ground (arith, other, count-without_grease v xs)
]

-- How often each number stands where names and GREASE are left out.
count-without_names :
    (v : ℕ) (xs : List ℕ)
    → count v (without_names xs)
      ≡ (if not (v == 0x0000) && not (v == 0x0010) then count v xs else 0)
count-without_names v [] = ground arith
count-without_names v (x ∷ xs) = ground (arith, count-without_names v xs)

-- Views that the fingerprint does not tell apart.
pub record IsAlike (v w : ClientHelloView) : Type 0 where
  pub suites_alike : without_grease v.cipher_suites ≡ without_grease w.cipher_suites
  pub extensions_alike :
      (n : ℕ) → count n (without_grease v.extensions) ≡ count n (without_grease w.extensions)
  pub sig_algs_alike : v.sig_algs ≡ w.sig_algs
  pub alpn_alike : v.alpn ≡ w.alpn
  pub has_sni_alike : v.has_sni ≡ w.has_sni
  pub versions_alike : without_grease v.supported_versions ≡ without_grease w.supported_versions

module _ (v w : ClientHelloView) (a : IsAlike v w) where
  length-extensions : length (without_grease v.extensions) ≡ length (without_grease w.extensions)
  length-extensions =
      sym (length-sort (without_grease v.extensions))
      ∙ ap length (
          sort_of_counts (without_grease v.extensions) (without_grease w.extensions)
            a.extensions_alike)
      ∙ length-sort (without_grease w.extensions)

  part_a_alike : ja4_part_a v ≡ ja4_part_a w
  unfolding ja4_part_a
  part_a_alike =
      rw (a.suites_alike, length-extensions, a.alpn_alike, a.has_sni_alike, a.versions_alike) refl

  ciphers_alike : ja4_ciphers_str v ≡ ja4_ciphers_str w
  unfolding ja4_ciphers_str
  ciphers_alike = rw a.suites_alike refl

  exts_alike : ja4_exts_str v ≡ ja4_exts_str w
  unfolding ja4_exts_str
  exts_alike =
      ap (λ l. join b',' (map hex4 l))
        (sort_of_counts (without_names (without_grease v.extensions))
          (without_names (without_grease w.extensions))
          (λ n.
            rw
              (
                count-without_names n (without_grease v.extensions),
                count-without_names n (without_grease w.extensions),
                a.extensions_alike n,
              )
              refl))

  sigalgs_alike : ja4_sigalgs_str v ≡ ja4_sigalgs_str w
  unfolding ja4_sigalgs_str
  sigalgs_alike = rw a.sig_algs_alike refl

  pub ja4_r-alike : ja4_r v ≡ ja4_r w
  unfolding ja4_r
  ja4_r-alike = rw (part_a_alike, ciphers_alike, exts_alike, sigalgs_alike) refl

  pub ja4-alike : (hash : Digest) → ja4 hash v ≡ ja4 hash w
  unfolding ja4
  ja4-alike hash = rw (part_a_alike, ciphers_alike, exts_alike, sigalgs_alike) refl
