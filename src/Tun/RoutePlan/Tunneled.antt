-- ===== src/Tun/RoutePlan/Tunneled.antt =====
-- Which destinations ride the tunnel under a plan.
use leshiy.Prelude.{
  ℕ, ◌+◌, ◌^◌, ◌≤◌, ◌<◌, ◌≡◌, ◌≢◌, ◌⊎◌, inl, inr, refl, ap, ◌∙◌, Bool, true, false, not, ◌||◌,
  Bool-cases, Option, none, some, List, [], ◌∷◌, ◌++◌, map, length, All, ltb, if◌then◌else◌, arith,
}
use leshiy.Prelude.Net.{IpAddr, v4, v6, is_ipv4}
use leshiy.Prelude.Bytes.{IsBytes, from_be, from_be-lt}
use leshiy.Client.SplitTunnel.{SplitMode, width}
use leshiy.Tun.RoutePlan.{
  Cidr, RoutePlan, Planned, planned, is_given, override_halves, bypasses, bypass_via, gateway_for,
  from_split, both, unspecified4, upper4, unspecified6, upper6, is_exclude,
}
use leshiy.Tun.RoutePlan.Kernel.{
  Via, default, tun, gateway, matches, Route, better, best_of, by_tun, by_gateway, table,
}

-- The octets are bytes, as many as the family has.
abbrev pub IsAddr : IpAddr → Type 0
IsAddr (v4 o) = IsBytes o × (length o ≡ 4)
IsAddr (v6 o) = IsBytes o × (length o ≡ 16)

abbrev pub Unmatched : IpAddr → Cidr → Type 0
Unmatched dest c = matches c dest ≡ false

abbrev pub host : IpAddr → Cidr
host ip = record { addr = ip; prefix = if is_ipv4 ip then 32 else 128 }

module _ (dest : IpAddr) where
  pub better-Unmatched :
      (r : Route) (best : ℕ × Via) → Unmatched dest r.0 → better dest r best ≡ best
  unfolding better
  better-Unmatched r best h = rw h refl

  -- A route that a best one with the given prefix, plus one, keeps out.
  abbrev pub Loses : ℕ → Route → Type 0
  Loses n r = (r.0.prefix < n) ⊎ Unmatched dest r.0

  better-Loses : (r : Route) (best : ℕ × Via) → Loses best.0 r → better dest r best ≡ best
  unfolding better
  better-Loses r best h = ground arith

  better-tun :
      (r : Route) (best : ℕ × Via) → best.1 ≡ tun → r.1 ≡ tun → (better dest r best).1 ≡ tun
  unfolding better
  better-tun r best h e = ground arith

  pub best_of_skip :
      (rs more : List Route) (best : ℕ × Via)
      → All (λ (r : Route). Unmatched dest r.0) rs
      → best_of dest (rs ++ more) best ≡ best_of dest more best
  unfolding best_of
  best_of_skip [] more best h = refl
  best_of_skip (r ∷ rs) more best h =
      ap (best_of dest (rs ++ more)) (better-Unmatched r best h.0) ∙ best_of_skip rs more best h.1

  pub best_of-by_tun :
      (cs : List Cidr) (best : ℕ × Via) → best.1 ≡ tun → best_of dest (map by_tun cs) best ≡ tun
  unfolding best_of
  best_of-by_tun [] best h = h
  best_of-by_tun (c ∷ cs) best h =
      best_of-by_tun cs (better dest (by_tun c) best) (better-tun (by_tun c) best h refl)

  pub best_of-Loses :
      (rs : List Route) (best : ℕ × Via) → All (Loses best.0) rs → best_of dest rs best ≡ best.1
  unfolding best_of
  best_of-Loses [] best h = refl
  best_of-Loses (r ∷ rs) best h =
      ap (best_of dest rs) (better-Loses r best h.0) ∙ best_of-Loses rs best h.1

  abbrev pub Avoids : Route → Type 0
  Avoids r = Unmatched dest r.0 ⊎ (r.1 ≢ tun)

  better-Avoids :
      (r : Route) (best : ℕ × Via) → Avoids r → best.1 ≢ tun → (better dest r best).1 ≢ tun
  unfolding better
  better-Avoids r best h b = ground arith

  pub best_of-Avoids :
      (rs : List Route) (best : ℕ × Via) → All Avoids rs → best.1 ≢ tun → best_of dest rs best ≢ tun
  unfolding best_of
  best_of-Avoids [] best h b = b
  best_of-Avoids (r ∷ rs) best h b =
      best_of-Avoids rs (better dest r best) h.1 (better-Avoids r best h.0 b)

  pub bypasses-Unmatched :
      (gw : IpAddr) (gw6 : Option IpAddr) (cs : List Cidr)
      → All (Unmatched dest) cs
      → All (λ (r : Route). Unmatched dest r.0) (map by_gateway (bypasses gw gw6 cs))
  unfolding bypasses
  bypasses-Unmatched gw gw6 [] h = tt
  bypasses-Unmatched gw gw6 (c ∷ cs) h =
      via (bypasses-Unmatched gw gw6 cs h.1) (gateway_for gw gw6 c)
    where
      via :
          All (λ (r : Route). Unmatched dest r.0) (map by_gateway (bypasses gw gw6 cs))
          → (o : Option IpAddr)
          → All
              (λ (r : Route). Unmatched dest r.0)
              (map by_gateway (bypass_via c o ++ bypasses gw gw6 cs))
      via later none = later
      via later (some g) = (h.0, later)

abbrev pub half : IpAddr → Cidr
half addr = record { addr = addr; prefix = 1 }

halves4_match :
    (o : List ℕ)
    → from_be o < 2 ^ 32
    → (matches (half unspecified4) (v4 o) ≡ true) ⊎ (matches (half upper4) (v4 o) ≡ true)
unfolding matches
halves4_match o bound = elim (Bool-cases (ltb (from_be o) (2 ^ 31))) [
  | inl low ↦ inl (ground (arith, low))
  | inr high ↦ inr (ground (arith, high, bound))
]

halves6_match :
    (o : List ℕ)
    → from_be o < 2 ^ 128
    → (matches (half unspecified6) (v6 o) ≡ true) ⊎ (matches (half upper6) (v6 o) ≡ true)
unfolding matches
halves6_match o bound = elim (Bool-cases (ltb (from_be o) (2 ^ 127))) [
  | inl low ↦ inl (ground (arith, low))
  | inr high ↦ inr (ground (arith, high, bound))
]

-- Of two halves by the tunnel one matches, so the route is the tunnel.
either_half :
    (dest lower upper : IpAddr) (best : ℕ × Via)
    → best.0 < 2
    → (matches (half lower) dest ≡ true) ⊎ (matches (half upper) dest ≡ true)
    → (better dest (by_tun (half upper)) (better dest (by_tun (half lower)) best)).1 ≡ tun
unfolding better
either_half dest lower upper best low h = ground arith

pub bypasses-Avoids :
    (dest gw : IpAddr) (gw6 : Option IpAddr) (cs : List Cidr)
    → All (Avoids dest) (map by_gateway (bypasses gw gw6 cs))
unfolding bypasses
bypasses-Avoids dest gw gw6 [] = tt
bypasses-Avoids dest gw gw6 (c ∷ cs) = via (bypasses-Avoids dest gw gw6 cs) (gateway_for gw gw6 c)
  where
    via :
        All (Avoids dest) (map by_gateway (bypasses gw gw6 cs))
        → (o : Option IpAddr)
        → All (Avoids dest) (map by_gateway (bypass_via c o ++ bypasses gw gw6 cs))
    via later none = later
    via later (some g) = (inr (λ e. cc e), later)

pub by_tun-Avoids :
    (dest : IpAddr) (cs : List Cidr) → All (Unmatched dest) cs → All (Avoids dest) (map by_tun cs)
by_tun-Avoids dest [] h = tt
by_tun-Avoids dest (c ∷ cs) h = (inl h.0, by_tun-Avoids dest cs h.1)

-- The arguments of a plan, apart from the rules.
pub record Session : Type 0 where
  pub server_ip : IpAddr
  pub orig_gateway : IpAddr
  pub orig_gateway6 : Option IpAddr
  pub tun_addr : IpAddr
  pub tun_addr6 : Option IpAddr

abbrev pub plan_for : Session → SplitMode → List Cidr → List Cidr → Planned
plan_for s mode includes excludes =
    from_split mode includes excludes s.server_ip s.orig_gateway s.orig_gateway6 s.tun_addr
      s.tun_addr6

abbrev pub halves_for : SplitMode → Session → List Cidr
halves_for mode s = if is_exclude mode then override_halves s.tun_addr6 else []

pub from_split-table :
    (s : Session) (mode : SplitMode) (includes excludes : List Cidr) (plan : RoutePlan)
    → plan_for s mode includes excludes ≡ planned plan
    → table plan
      ≡ (host s.server_ip, gateway s.orig_gateway)
        ∷ (map by_gateway (
              bypasses s.orig_gateway
                (if not (is_ipv4 s.orig_gateway) then some s.orig_gateway else s.orig_gateway6)
                excludes)
            ++ map by_tun (halves_for mode s ++ includes))
unfolding from_split table
from_split-table s mode includes excludes plan e =
    elim (Bool-cases (both (is_ipv4 s.server_ip) (is_ipv4 s.orig_gateway))) [
      | inr mixed ↦ ground (arith, mixed, e)
      | inl agree ↦ ground (arith, agree, e)
    ]

-- A destination whose family the tunnel carries.
abbrev pub is_carried : Session → IpAddr → Bool
is_carried s dest = is_ipv4 dest || is_given s.tun_addr6

abbrev halves6 : Session → List Cidr
halves6 s = if is_given s.tun_addr6 then half unspecified6 ∷ half upper6 ∷ [] else []

pub halves_tun :
    (s : Session) (dest : IpAddr) (includes : List Cidr) (best : ℕ × Via)
    → IsAddr dest
    → is_carried s dest ≡ true
    → best.0 < 2
    → best_of dest (map by_tun (override_halves s.tun_addr6 ++ includes)) best ≡ tun
unfolding override_halves best_of matches
halves_tun s (v4 o) includes best h c low =
    best_of-by_tun (v4 o) (halves6 s ++ includes)
      (better (v4 o) (by_tun (half upper4)) (better (v4 o) (by_tun (half unspecified4)) best))
      (either_half (v4 o) unspecified4 upper4 best low (halves4_match o (from_be-lt 4 o h.0 h.1)))
halves_tun s (v6 o) includes best h c low =
    let given : is_given s.tun_addr6 ≡ true = c in
    let first = better-Unmatched (v6 o) (by_tun (half unspecified4)) best refl in
    let second = better-Unmatched (v6 o) (by_tun (half upper4)) best refl in
    rw (given, first, second)
      (best_of-by_tun (v6 o) includes
        (better (v6 o) (by_tun (half upper6)) (better (v6 o) (by_tun (half unspecified6)) best))
        (either_half (v6 o) unspecified6 upper6 best low
          (halves6_match o (from_be-lt 16 o h.0 h.1))))

-- No network of a valid prefix beats the host route of the server.
pub include-Loses :
    (dest server : IpAddr) (c : Cidr)
    → c.prefix ≤ width c.addr
    → matches (host server) dest ≡ true
    → Loses dest ((host server).prefix + 1) (by_tun c)
unfolding matches
include-Loses dest server c valid hit = ground (arith, valid, hit)

pub by_tun-Loses :
    (dest server : IpAddr) (cs : List Cidr)
    → All (λ (c : Cidr). c.prefix ≤ width c.addr) cs
    → matches (host server) dest ≡ true
    → All (Loses dest ((host server).prefix + 1)) (map by_tun cs)
by_tun-Loses dest server [] valid hit = tt
by_tun-Loses dest server (c ∷ cs) valid hit =
    (include-Loses dest server c valid.0 hit, by_tun-Loses dest server cs valid.1 hit)

pub override_halves_valid :
    (tun_addr6 : Option IpAddr)
    → All (λ (c : Cidr). c.prefix ≤ width c.addr) (override_halves tun_addr6)
unfolding override_halves
override_halves_valid none = omega arith
override_halves_valid (some addr) = omega arith

pub better_first :
    (dest : IpAddr) (r : Route)
    → matches r.0 dest ≡ true
    → better dest r (0, default) ≡ (r.0.prefix + 1, r.1)
unfolding better
better_first dest r hit = ground (arith, hit)
