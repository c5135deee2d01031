-- ===== src/Tls/Ja/Sorting.antt =====
-- Sorting forgets the order of a list and nothing else.
use leshiy.Prelude.{
  ℕ, suc, ◌+◌, ◌<◌, ◌≡◌, refl, ap, sym, ◌∙◌, Bool-cases, inl, inr, List, [], ◌∷◌, length, ◌==◌,
  if◌then◌else◌, arith,
}
use leshiy.Tls.Camouflage.Shuffle.{count}
use leshiy.Tls.Ja.Text.{insert, sort}

insert_comm : (x y : ℕ) (l : List ℕ) → insert x (insert y l) ≡ insert y (insert x l)
unfolding insert
insert_comm x y [] = ground arith
insert_comm x y (z ∷ zs) = ground (arith, insert_comm x y zs)

-- Without the first x.
remove : ℕ → List ℕ → List ℕ
remove x [] = []
remove x (y ∷ ys) = if x == y then ys else y ∷ remove x ys

count-remove :
    (v x : ℕ) (ys : List ℕ)
    → 0 < count x ys
    → count v (remove x ys) + (if v == x then 1 else 0) ≡ count v ys
unfolding remove
count-remove v x [] h = absurd (omega arith)
count-remove v x (y ∷ ys) h = ground (arith, count-remove v x ys)

sort-remove : (x : ℕ) (ys : List ℕ) → 0 < count x ys → sort ys ≡ insert x (sort (remove x ys))
unfolding sort remove
sort-remove x [] h = absurd (omega arith)
sort-remove x (y ∷ ys) h = elim (Bool-cases (x == y)) [
  | inl same ↦ let e : x ≡ y = ground (arith, same) in rw (same, e) refl
  | inr other ↦
      let rest = sort-remove x ys (ground (arith, h, other)) in
      rw (other, rest) (insert_comm y x (sort (remove x ys)))
]

none_left : (ys : List ℕ) → ((v : ℕ) → count v ys ≡ 0) → ys ≡ []
none_left [] h = refl
none_left (y ∷ ys) h = absurd (ground (arith, h y))

-- Lists that hold each number equally often are sorted alike.
pub sort_of_counts : (xs ys : List ℕ) → ((v : ℕ) → count v xs ≡ count v ys) → sort xs ≡ sort ys
unfolding sort
sort_of_counts [] ys h = ap sort (sym (none_left ys (λ v. sym (h v))))
sort_of_counts (x ∷ xs) ys h =
    let there : 0 < count x ys = ground (arith, h x) in
    ap (insert x)
      (sort_of_counts xs (remove x ys) (λ v. omega (arith, h v, count-remove v x ys there)))
    ∙ sym (sort-remove x ys there)

length-insert : (x : ℕ) (l : List ℕ) → length (insert x l) ≡ suc (length l)
unfolding insert
length-insert x [] = refl
length-insert x (y ∷ ys) = ground (arith, length-insert x ys)

pub length-sort : (xs : List ℕ) → length (sort xs) ≡ length xs
unfolding sort
length-sort [] = refl
length-sort (x ∷ xs) = length-insert x (sort xs) ∙ ap suc (length-sort xs)
