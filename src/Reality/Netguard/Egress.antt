-- ===== src/Reality/Netguard/Egress.antt =====
-- What the egress policy refuses in every form.
use leshiy.Prelude.{ℕ, ◌≡◌, refl, Bool, true, false, not, ◌&&◌, ◌||◌, List, [], ◌∷◌}
use leshiy.Prelude.Net.{IpAddr, v4, v6}
use leshiy.Reality.Netguard.{
  v4_always, v4_local, v6_always, v6_local, canonical_ip, forbidden, check_ip,
}

abbrev pub mapped : List ℕ → List ℕ
mapped o = 0 ∷ 0 ∷ 0 ∷ 0 ∷ 0 ∷ 0 ∷ 0 ∷ 0 ∷ 0 ∷ 0 ∷ 255 ∷ 255 ∷ o

strict_or : (x p : Bool) → (not (x || (true && p)) && not (not (x || (false && p)))) ≡ false
strict_or true p = refl
strict_or false true = refl
strict_or false false = refl

strict_forbidden :
    (addr : IpAddr) → (not (forbidden addr false) && not (not (forbidden addr true))) ≡ false
unfolding forbidden
strict_forbidden (v4 o) = strict_or (v4_always o) (v4_local o)
strict_forbidden (v6 o) = strict_or (v6_always o) (v6_local o)

-- The IPv4-mapped form of an address gets the answer of the address itself; a link-local address
-- (169.254.x.y) is refused in that form too whatever the setting; and no address is permitted by
-- the strict setting and refused by the lenient one.
pub check_ip_forms :
    (o : List ℕ) (x y : ℕ) (addr : IpAddr) (allow_private : Bool)
    → (check_ip (v6 (mapped o)) allow_private ≡ check_ip (v4 o) allow_private)
      × (check_ip (v6 (mapped (169 ∷ 254 ∷ x ∷ y ∷ []))) allow_private ≡ false)
      × ((check_ip addr false && not (check_ip addr true)) ≡ false)
unfolding check_ip canonical_ip forbidden
check_ip_forms o x y addr allow_private = (refl, refl, strict_forbidden (canonical_ip addr))
