-- ===== src/Prelude/Assoc.antt =====
-- A hash map with numbers for keys, as an association list. What a map yields does not depend on
-- the order of the list.
use leshiy.Prelude.{
  ℕ, ◌+◌, ◌≤◌, ◌≡◌, refl, Option, none, some, List, [], ◌∷◌, length, All, ◌==◌, if◌then◌else◌,
  arith, Bool-cases, inl, inr, subst,
}

module _ {ℓ} {V : Type ℓ} where
  unfoldable pub erase : ℕ → List (ℕ × V) → List (ℕ × V)
  erase key [] = []
  erase key (entry ∷ table) =
      let others = erase key table in if entry.0 == key then others else entry ∷ others

  unfoldable pub lookup : ℕ → List (ℕ × V) → Option V
  lookup key [] = none
  lookup key (entry ∷ table) =
      let later = lookup key table in if entry.0 == key then some entry.1 else later

  unfoldable pub insert : ℕ → V → List (ℕ × V) → List (ℕ × V)
  insert key value [] = (key, value) ∷ []
  insert key value (entry ∷ table) =
      let others = insert key value table in
      if entry.0 == key then (key, value) ∷ table else entry ∷ others

  pub lookup-insert :
      (key other : ℕ) (value : V) (table : List (ℕ × V))
      → lookup other (insert key value table)
        ≡ (if key == other then some value else lookup other table)
  unfolding insert lookup
  lookup-insert key other value [] = refl
  lookup-insert key other value (entry ∷ table) =
      ground (arith, lookup-insert key other value table)

  pub lookup-erase :
      (k j : ℕ) (m : List (ℕ × V)) → lookup j (erase k m) ≡ (if k == j then none else lookup j m)
  unfolding lookup erase
  lookup-erase k j [] = ground arith
  lookup-erase k j ((i, w) ∷ m) = ground (arith, lookup-erase k j m)

  pub length-insert : (k : ℕ) (v : V) (m : List (ℕ × V)) → length (insert k v m) ≤ length m + 1
  unfolding insert
  length-insert k v [] = omega arith
  length-insert k v ((j, w) ∷ m) = ground (arith, length-insert k v m)

  pub length-insert_found :
      (k : ℕ) (v w : V) (m : List (ℕ × V)) → lookup k m ≡ some w → length (insert k v m) ≡ length m
  unfolding insert lookup
  length-insert_found k v w [] h = cc
  length-insert_found k v w ((j, u) ∷ m) h = ground (arith, length-insert_found k v w m)

  pub length-erase : (k : ℕ) (m : List (ℕ × V)) → length (erase k m) ≤ length m
  unfolding erase
  length-erase k [] = omega arith
  length-erase k ((j, w) ∷ m) = ground (arith, length-erase k m)

  -- A predicate on every value.
  abbrev pub Values {κ} : (V → Type κ) → List (ℕ × V) → Type κ
  Values P = All λ e. P e.1

  module _ {κ} (P : V → Type κ) where
    pub Values-insert :
        (k : ℕ) (v : V) (m : List (ℕ × V)) → P v → Values P m → Values P (insert k v m)
    unfolding insert
    Values-insert k v [] pv h = (pv, tt)
    Values-insert k v ((j, w) ∷ m) pv h = ground (arith, Values-insert k v m pv h.1)

    pub Values-erase : (k : ℕ) (m : List (ℕ × V)) → Values P m → Values P (erase k m)
    unfolding erase
    Values-erase k [] h = tt
    Values-erase k ((j, w) ∷ m) h = ground (arith, Values-erase k m h.1)

    pub Values-lookup : (k : ℕ) (v : V) (m : List (ℕ × V)) → Values P m → lookup k m ≡ some v → P v
    unfolding lookup
    Values-lookup k v [] h e = cc
    Values-lookup k v ((j, w) ∷ m) h e = elim (Bool-cases (j == k)) [
      | inl hit ↦ let same : w ≡ v = cc (rw hit at e) in subst P same h.0
      | inr miss ↦ Values-lookup k v m h.1 (rw miss at e)
    ]
