-- ===== src/Reality/Netguard.antt =====
-- crates/leshiy-reality/src/netguard.rs: which addresses the exit dials. The classes that the
-- standard library names are those of its documentation, on octets.
pub mod Egress
mod Tests
use leshiy.Prelude.{
  ℕ, Bool, true, false, not, ◌&&◌, ◌||◌, List, [], ◌∷◌, get_or, drop, take, ◌==◌, leb, bit_and,
  if◌then◌else◌,
}
use leshiy.Prelude.Net.{IpAddr, v4, v6}

abbrev pub all_zero : List ℕ → Bool
all_zero [] = true
all_zero (x ∷ xs) = (x == 0) && all_zero xs

-- `to_ipv4_mapped`: ten zeros and two octets of ones.
abbrev pub is_mapped : List ℕ → Bool
is_mapped o = all_zero (take 10 o) && ((get_or o 10 0 == 255) && (get_or o 11 0 == 255))

unfoldable pub canonical_ip : IpAddr → IpAddr
canonical_ip (v6 o) = if is_mapped o then v4 (drop 12 o) else v6 o
canonical_ip (v4 o) = v4 o

abbrev v4_private : List ℕ → Bool
v4_private o =
    let a = get_or o 0 0 in
    let b = get_or o 1 0 in
    (a == 10) || (((a == 172) && (leb 16 b && leb b 31)) || ((a == 192) && (b == 168)))

abbrev is_cgnat : List ℕ → Bool
is_cgnat o = (get_or o 0 0 == 100) && (bit_and (get_or o 1 0) 0xc0 == 64)

abbrev is_special : List ℕ → Bool
is_special o =
    let a = get_or o 0 0 in
    let b = get_or o 1 0 in
    ((a == 192) && ((b == 0) && (get_or o 2 0 == 0)))
    || (((a == 198) && ((b == 18) || (b == 19))) || leb 240 a)

abbrev pub v4_local : List ℕ → Bool
v4_local o = (get_or o 0 0 == 127) || (v4_private o || is_cgnat o)

abbrev pub v4_always : List ℕ → Bool
v4_always o =
    let a = get_or o 0 0 in
    let b = get_or o 1 0 in
    all_zero o
    || ((leb 224 a && leb a 239)
        || (((a == 169) && (b == 254))
            || (((a == 255) && ((b == 255) && ((get_or o 2 0 == 255) && (get_or o 3 0 == 255))))
                || is_special o)))

abbrev pub v6_always : List ℕ → Bool
v6_always o =
    all_zero o
    || ((get_or o 0 0 == 255) || ((get_or o 0 0 == 254) && (bit_and (get_or o 1 0) 0xc0 == 128)))

-- The loopback address, and fc00::/7 from the first octet.
abbrev pub v6_local : List ℕ → Bool
v6_local o = (all_zero (take 15 o) && (get_or o 15 0 == 1)) || (bit_and (get_or o 0 0) 0xfe == 0xfc)

unfoldable pub forbidden : IpAddr → Bool → Bool
forbidden (v4 o) allow_private = v4_always o || (not allow_private && v4_local o)
forbidden (v6 o) allow_private = v6_always o || (not allow_private && v6_local o)

-- True is `Ok`.
unfoldable pub check_ip : IpAddr → Bool → Bool
check_ip addr allow_private = not (forbidden (canonical_ip addr) allow_private)
