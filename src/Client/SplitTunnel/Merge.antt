-- ===== src/Client/SplitTunnel/Merge.antt =====
-- Merging rule sets: a union, without duplicates.
use leshiy.Prelude.{
  ℕ, ◌≡◌, inl, inr, refl, ap, Bool, true, false, not, ◌&&◌, ◌||◌, Bool-cases, List, [], ◌∷◌, ◌++◌,
  arith,
}
use leshiy.Prelude.Net.{IpAddr, v4, v6, same_addr, same_bytes, same_bytes_refl, same_bytes_eq}
use leshiy.Client.SplitTunnel.{
  SplitMode, SplitCidr, RuleSet, SplitPlan, include, exclude, same_cidr, contains, push_new, extend,
  merge,
}

-- No element is found again behind itself.
abbrev pub distinct : {A : Type 0} → (A → A → Bool) → List A → Bool
distinct same [] = true
distinct same (x ∷ xs) = let rest = distinct same xs in not (contains same xs x) && rest

module _ {A : Type 0} (same : A → A → Bool) (same_eq : (x y : A) → same x y ≡ true → x ≡ y) where
  contains-snoc :
      (xs : List A) (y a : A) → contains same (xs ++ (y ∷ [])) a ≡ (contains same xs a || same y a)
  unfolding contains
  contains-snoc [] y a = ground arith
  contains-snoc (x ∷ xs) y a = ground (arith, contains-snoc xs y a)

  contains-push_new :
      (known xs : List A) (a : A)
      → contains same (push_new same known xs) a ≡ (contains same known a || contains same xs a)
  unfolding push_new contains
  contains-push_new known [] a = ground arith
  contains-push_new known (x ∷ xs) a = elim (Bool-cases (contains same known x)) [
    | inl old ↦ rw old (ground (arith, contains-push_new known xs a, old, same_eq x a))
    | inr fresh ↦
        rw fresh
          (ground (arith, contains-push_new (known ++ (x ∷ [])) xs a, contains-snoc known x a))
  ]

  module _ (same_refl : (x : A) → same x x ≡ true) where
    distinct-snoc :
        (xs : List A) (y : A)
        → contains same xs y ≡ false
        → distinct same xs ≡ true
        → distinct same (xs ++ (y ∷ [])) ≡ true
    unfolding contains
    distinct-snoc [] y h d = refl
    distinct-snoc (x ∷ xs) y h d =
        ground (arith, contains-snoc xs y x, same_eq y x, same_refl x, distinct-snoc xs y)

    distinct-push_new :
        (known xs : List A)
        → distinct same known ≡ true
        → distinct same (push_new same known xs) ≡ true
    unfolding push_new
    distinct-push_new known [] d = d
    distinct-push_new known (x ∷ xs) d = elim (Bool-cases (contains same known x)) [
      | inl old ↦ rw old (distinct-push_new known xs d)
      | inr fresh ↦
          rw fresh (distinct-push_new (known ++ (x ∷ [])) xs (distinct-snoc known x fresh d))
    ]

same_addr_eq : (a b : IpAddr) → same_addr a b ≡ true → a ≡ b
unfolding same_addr
same_addr_eq (v4 a) (v4 b) h = ap v4 (same_bytes_eq a b h)
same_addr_eq (v4 a) (v6 b) h = cc
same_addr_eq (v6 a) (v4 b) h = cc
same_addr_eq (v6 a) (v6 b) h = ap v6 (same_bytes_eq a b h)

same_addr_refl : (a : IpAddr) → same_addr a a ≡ true
unfolding same_addr
same_addr_refl (v4 a) = same_bytes_refl a
same_addr_refl (v6 a) = same_bytes_refl a

same_cidr_eq : (a b : SplitCidr) → same_cidr a b ≡ true → a ≡ b
same_cidr_eq a b h = ground (arith, same_addr_eq a.addr b.addr)

same_cidr_refl : (a : SplitCidr) → same_cidr a a ≡ true
same_cidr_refl a = ground (arith, same_addr_refl a.addr)

-- The rules of one direction.
abbrev pub side : SplitMode → SplitPlan → RuleSet
side include p = p.include_rules
side exclude p = p.exclude_rules

abbrev pub opposite : SplitMode → SplitMode
opposite include = exclude
opposite exclude = include

abbrev pub IsDistinct : RuleSet → Type 0
IsDistinct r = (distinct same_cidr r.cidrs ≡ true) × (distinct same_bytes r.domains ≡ true)

union :
    (r rules : RuleSet) (c : SplitCidr) (d : List ℕ)
    → IsDistinct r
    → IsDistinct (extend r rules)
      × (contains same_cidr (extend r rules).cidrs c
          ≡ (contains same_cidr r.cidrs c || contains same_cidr rules.cidrs c))
      × (contains same_bytes (extend r rules).domains d
          ≡ (contains same_bytes r.domains d || contains same_bytes rules.domains d))
unfolding extend
union r rules c d h = (
  (
    distinct-push_new same_cidr same_cidr_eq same_cidr_refl r.cidrs rules.cidrs h.0,
    distinct-push_new same_bytes same_bytes_eq same_bytes_refl r.domains rules.domains h.1,
  ),
  contains-push_new same_cidr same_cidr_eq r.cidrs rules.cidrs c,
  contains-push_new same_bytes same_bytes_eq r.domains rules.domains d,
)

-- Merging a subscription into one direction of a plan without duplicates leaves no duplicates there,
-- makes its networks and domains the union of both, and changes neither the other direction nor the
-- base policy.
pub merge_union :
    (p : SplitPlan) (mode : SplitMode) (rules : RuleSet) (c : SplitCidr) (d : List ℕ)
    → IsDistinct (side mode p)
    → let q = merge p mode rules in
      IsDistinct (side mode q)
      × (contains same_cidr (side mode q).cidrs c
          ≡ (contains same_cidr (side mode p).cidrs c || contains same_cidr rules.cidrs c))
      × (contains same_bytes (side mode q).domains d
          ≡ (contains same_bytes (side mode p).domains d || contains same_bytes rules.domains d))
      × (side (opposite mode) q ≡ side (opposite mode) p)
      × (q.base_mode ≡ p.base_mode)
unfolding merge extend
merge_union p include rules c d h =
    let u = union p.include_rules rules c d h in (u.0, u.1, u.2, refl, refl)
merge_union p exclude rules c d h =
    let u = union p.exclude_rules rules c d h in (u.0, u.1, u.2, refl, refl)
