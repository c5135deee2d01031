-- ===== src/Tls/Ja/Visits.antt =====
-- What a run over a block of extensions leaves in each field of the view.
use leshiy.Prelude.{
  ℕ, zero, suc, ◌+◌, ◌<◌, ◌≡◌, refl, ap, sym, ◌∙◌, Bool, Bool-cases, ◌⊎◌, inl, inr, true, false,
  List, [], ◌∷◌, ◌++◌, append-nil, append_assoc, ◌==◌, if◌then◌else◌, arith,
}
use leshiy.Tls.Error.{Outcome}
use leshiy.Tls.Camouflage.Shuffle.{count}
use leshiy.Tls.Builder.Extensions.{visits}
use leshiy.Tls.Ja.{ClientHelloView}

abbrev pub times {ℓ} : {A : Type ℓ} → ℕ → List A → List A
times zero xs = []
times (suc n) xs = xs ++ times n xs

times_eq {ℓ} :
    {A : Type ℓ} (m n : ℕ) (seen xs : List A) → m ≡ n → seen ++ times m xs ≡ seen ++ times n xs
times_eq m n seen xs h = ap (λ (k : ℕ). seen ++ times k xs) h

times-hit {ℓ} :
    {A : Type ℓ} (hit : Bool) (n : ℕ) (seen xs : List A)
    → (if hit then seen ++ xs else seen) ++ times n xs
      ≡ seen ++ times ((if hit then 1 else 0) + n) xs
times-hit true n seen xs =
    append_assoc seen xs (times n xs) ∙ times_eq (suc n) (1 + n) seen xs (omega arith)
times-hit false n seen xs = times_eq n (0 + n) seen xs (omega arith)

pub times_once {ℓ} : {A : Type ℓ} (n : ℕ) (xs : List A) → n ≡ 1 → times n xs ≡ xs
times_once n xs h = rw h (append-nil xs)

module _ (read : ℕ → List ℕ → ClientHelloView → Outcome ClientHelloView)
    (add : ℕ → ClientHelloView → ClientHelloView) where
  -- A list that one type of extension adds to.
  pub visits-list {ℓ} :
      {A : Type ℓ} (field : ClientHelloView → List A) (key : ℕ) (xs : List A)
      → ((t : ℕ) (seen : ClientHelloView)
          → field (add t seen) ≡ (if key == t then field seen ++ xs else field seen))
      → (ts : List ℕ) (seen : ClientHelloView)
      → field (visits read add ts seen) ≡ field seen ++ times (count key ts) xs
  unfolding visits
  visits-list field key xs step [] seen = sym (append-nil (field seen))
  visits-list field key xs step (t ∷ ts) seen =
      visits-list field key xs step ts (add t seen)
      ∙ ap (λ l. l ++ times (count key ts) xs) (step t seen)
      ∙ times-hit (key == t) (count key ts) (field seen) xs

  -- A field that no extension changes.
  pub visits-fixed {ℓ} :
      {A : Type ℓ} (field : ClientHelloView → A)
      → ((t : ℕ) (seen : ClientHelloView) → field (add t seen) ≡ field seen)
      → (ts : List ℕ) (seen : ClientHelloView) → field (visits read add ts seen) ≡ field seen
  unfolding visits
  visits-fixed field step [] seen = refl
  visits-fixed field step (t ∷ ts) seen = visits-fixed field step ts (add t seen) ∙ step t seen

  pub visits-extensions :
      ((t : ℕ) (seen : ClientHelloView) → (add t seen).extensions ≡ seen.extensions ++ (t ∷ []))
      → (ts : List ℕ) (seen : ClientHelloView)
      → (visits read add ts seen).extensions ≡ seen.extensions ++ ts
  unfolding visits
  visits-extensions step [] seen = sym (append-nil seen.extensions)
  visits-extensions step (t ∷ ts) seen =
      visits-extensions step ts (add t seen)
      ∙ ap (λ l. l ++ ts) (step t seen)
      ∙ append_assoc seen.extensions (t ∷ []) ts

  pub visits-has_sni :
      ((t : ℕ) (seen : ClientHelloView)
        → (add t seen).has_sni ≡ (if 0x0000 == t then true else seen.has_sni))
      → (ts : List ℕ) (seen : ClientHelloView) → (seen.has_sni ≡ true) ⊎ (0 < count 0x0000 ts)
      → (visits read add ts seen).has_sni ≡ true
  unfolding visits
  visits-has_sni step [] seen (inl h) = h
  visits-has_sni step [] seen (inr h) = absurd (omega arith)
  visits-has_sni step (t ∷ ts) seen h =
      visits-has_sni step ts (add t seen) (elim (Bool-cases (0x0000 == t)) [
        | inl hit ↦ inl (step t seen ∙ rw hit refl)
        | inr other ↦ named_later t ts seen other h
      ])
    where
      named_later :
          (t : ℕ) (ts : List ℕ) (seen : ClientHelloView)
          → (0x0000 == t) ≡ false
          → (seen.has_sni ≡ true) ⊎ (0 < count 0x0000 (t ∷ ts))
          → ((add t seen).has_sni ≡ true) ⊎ (0 < count 0x0000 ts)
      named_later t ts seen other (inl set) = inl (step t seen ∙ rw other set)
      named_later t ts seen other (inr there) = inr (ground (arith, other, there))
