-- ===== src/Prelude/Net.antt =====
-- IP addresses as their octets, and the test for equal ones.
use leshiy.Prelude.{ℕ, Bool, true, false, ◌&&◌, List, [], ◌∷◌, ◌==◌, ◌≡◌, refl, arith}

-- `IpAddr`, with the octets of each family.
pub data IpAddr : Type 0 where
  v4 v6 : List ℕ → IpAddr

abbrev pub is_ipv4 : IpAddr → Bool
is_ipv4 (v4 o) = true
is_ipv4 (v6 o) = false

abbrev pub octets : IpAddr → List ℕ
octets (v4 o) = o
octets (v6 o) = o

-- Equality of byte strings.
unfoldable pub same_bytes : List ℕ → List ℕ → Bool
same_bytes [] [] = true
same_bytes [] (y ∷ ys) = false
same_bytes (x ∷ xs) [] = false
same_bytes (x ∷ xs) (y ∷ ys) = let rest = same_bytes xs ys in (x == y) && rest

unfoldable pub same_addr : IpAddr → IpAddr → Bool
unfolding same_bytes
same_addr (v4 a) (v4 b) = same_bytes a b
same_addr (v4 a) (v6 b) = false
same_addr (v6 a) (v4 b) = false
same_addr (v6 a) (v6 b) = same_bytes a b

pub same_bytes_refl : (xs : List ℕ) → same_bytes xs xs ≡ true
unfolding same_bytes
same_bytes_refl [] = refl
same_bytes_refl (x ∷ xs) = ground (arith, same_bytes_refl xs)

pub same_bytes_eq : (xs ys : List ℕ) → same_bytes xs ys ≡ true → xs ≡ ys
unfolding same_bytes
same_bytes_eq [] [] h = refl
same_bytes_eq [] (y ∷ ys) h = cc
same_bytes_eq (x ∷ xs) [] h = cc
same_bytes_eq (x ∷ xs) (y ∷ ys) h = ground (arith, same_bytes_eq xs ys)
