-- ===== src/Tun/RoutePlan/Leaks.antt =====
-- No leak: what a plan sends into the tunnel and what it keeps out, and that the rules which
-- `effective` drops change neither.
use leshiy.Prelude.{
  ◌+◌, ◌≤◌, ◌≡◌, ◌≢◌, inl, inr, refl, sym, ap, ◌∙◌, Bool, true, false, not, Bool-cases, Option,
  some, List, [], ◌∷◌, ◌++◌, map, All, All-append, if◌then◌else◌, arith,
}
use leshiy.Prelude.Net.{IpAddr, is_ipv4}
use leshiy.Client.SplitTunnel.{
  SplitMode, SplitCidr, SplitPlan, RuleSet, exclude, include, IsValid, effective, effective_at,
  width, is_nil, is_empty,
}
use leshiy.Tun.RoutePlan.{Cidr, RoutePlan, planned, from_split_cidr, bypasses, override_halves}
use leshiy.Tun.RoutePlan.Kernel.{
  Via, default, tun, gateway, matches, Route, best_of, by_tun, by_gateway, route,
}
use leshiy.Tun.RoutePlan.Tunneled.{
  IsAddr, Unmatched, host, Session, plan_for, is_carried, Avoids, best_of_skip, best_of-Loses,
  by_tun-Loses, override_halves_valid, better_first, best_of-Avoids, better-Unmatched,
  bypasses-Unmatched, bypasses-Avoids, by_tun-Avoids, from_split-table, halves_tun,
}

abbrev gateway6 : Session → Option IpAddr
gateway6 s = if not (is_ipv4 s.orig_gateway) then some s.orig_gateway else s.orig_gateway6

-- Under an Exclude base no traffic leaks: a destination whose family the tunnel carries, that is not
-- the server and that no exclude rule matches rides the tunnel, whatever the include rules are.
pub route-tun :
    (s : Session) (includes excludes : List Cidr) (plan : RoutePlan) (dest : IpAddr)
    → plan_for s exclude includes excludes ≡ planned plan
    → IsAddr dest
    → is_carried s dest ≡ true
    → Unmatched dest (host s.server_ip)
    → All (Unmatched dest) excludes
    → route plan dest ≡ tun
unfolding route best_of
route-tun s includes excludes plan dest e h c server others =
    rw (from_split-table s exclude includes excludes plan e) (
      ap (best_of dest (bypass_routes ++ tun_routes))
        (better-Unmatched dest (host s.server_ip, gateway s.orig_gateway) (0, default) server)
      ∙ best_of_skip dest bypass_routes tun_routes (0, default)
          (bypasses-Unmatched dest s.orig_gateway (gateway6 s) excludes others)
      ∙ halves_tun s dest includes (0, default) h c (omega arith))
  where
    bypass_routes : List Route
    bypass_routes = map by_gateway (bypasses s.orig_gateway (gateway6 s) excludes)

    tun_routes : List Route
    tun_routes = map by_tun (override_halves s.tun_addr6 ++ includes)

-- Under an Include base a destination that no include rule matches stays out of the tunnel.
pub route-ne-tun :
    (s : Session) (includes excludes : List Cidr) (plan : RoutePlan) (dest : IpAddr)
    → plan_for s include includes excludes ≡ planned plan
    → All (Unmatched dest) includes
    → route plan dest ≢ tun
unfolding route
route-ne-tun s includes excludes plan dest e h =
    rw (from_split-table s include includes excludes plan e) (
      best_of-Avoids dest
        ((host s.server_ip, gateway s.orig_gateway)
          ∷ (map by_gateway (bypasses s.orig_gateway (gateway6 s) excludes) ++ map by_tun includes))
        (0, default)
        (
          inr (λ e. cc e),
          All-append (Avoids dest) (map by_gateway (bypasses s.orig_gateway (gateway6 s) excludes))
              (map by_tun includes) (bypasses-Avoids dest s.orig_gateway (gateway6 s) excludes)
              (by_tun-Avoids dest includes h),
        )
        (λ e. cc e))

server_route :
    (s : Session) (includes : List Cidr) (plan : RoutePlan) (dest : IpAddr)
    → plan_for s exclude includes [] ≡ planned plan
    → All (λ (c : Cidr). c.prefix ≤ width c.addr) includes
    → matches (host s.server_ip) dest ≡ true
    → route plan dest ≡ gateway s.orig_gateway
unfolding route best_of bypasses
server_route s includes plan dest e valid hit = rw (from_split-table s exclude includes [] plan e) (
    ap (best_of dest tun_routes) (better_first dest (host s.server_ip, gateway s.orig_gateway) hit)
    ∙ best_of-Loses dest tun_routes ((host s.server_ip).prefix + 1, gateway s.orig_gateway)
        (by_tun-Loses dest s.server_ip (override_halves s.tun_addr6 ++ includes)
          (All-append (λ (c : Cidr). c.prefix ≤ width c.addr) (override_halves s.tun_addr6) includes
            (override_halves_valid s.tun_addr6) valid)
          hit))
  where
    tun_routes : List Route
    tun_routes = map by_tun (override_halves s.tun_addr6 ++ includes)

abbrev pub is_tun : Via → Bool
is_tun tun = true
is_tun via = false

is_tun-route :
    (s : Session) (includes : List Cidr) (plan : RoutePlan) (dest : IpAddr)
    → plan_for s exclude includes [] ≡ planned plan
    → All (λ (c : Cidr). c.prefix ≤ width c.addr) includes
    → IsAddr dest
    → is_carried s dest ≡ true
    → is_tun (route plan dest) ≡ not (matches (host s.server_ip) dest)
is_tun-route s includes plan dest e valid h c =
    elim (Bool-cases (matches (host s.server_ip) dest)) [
      | inl hit ↦ rw (hit, server_route s includes plan dest e valid hit) refl
      | inr other ↦ rw (other, route-tun s includes [] plan dest e h c other tt) refl
    ]

not_tun : (v : Via) → v ≢ tun → is_tun v ≡ false
not_tun default h = refl
not_tun tun h = absurd (h refl)
not_tun (gateway g) h = refl

nil_of : {A : Type 0} (xs : List A) → is_nil xs ≡ true → xs ≡ []
nil_of [] h = refl
nil_of (x ∷ xs) h = cc

no_networks : (r : RuleSet) → is_empty r ≡ true → r.cidrs ≡ []
no_networks r h = nil_of r.cidrs (ground (arith, h))

map_valid :
    (cs : List SplitCidr)
    → All IsValid cs
    → All (λ (c : Cidr). c.prefix ≤ width c.addr) (map from_split_cidr cs)
unfolding from_split_cidr
map_valid [] h = tt
map_valid (c ∷ cs) h = (h.0, map_valid cs h.1)

abbrev pub networks : RuleSet → List Cidr
networks r = map from_split_cidr r.cidrs

one_plan :
    (full trimmed : RoutePlan) (dest : IpAddr)
    → planned full ≡ planned trimmed
    → is_tun (route full dest) ≡ is_tun (route trimmed dest)
one_plan full trimmed dest e =
    let same : full ≡ trimmed = cc e in ap (λ plan. is_tun (route plan dest)) same

effective_at-route :
    (mode : SplitMode) (p : SplitPlan) (s : Session) (full trimmed : RoutePlan) (dest : IpAddr)
    → plan_for s mode (networks p.include_rules) (networks p.exclude_rules) ≡ planned full
    → plan_for s mode (networks (effective_at mode p).0) (networks (effective_at mode p).1)
      ≡ planned trimmed
    → All IsValid p.include_rules.cidrs
    → IsAddr dest
    → is_carried s dest ≡ true
    → is_tun (route full dest) ≡ is_tun (route trimmed dest)
effective_at-route exclude p s full trimmed dest e f valid h c =
    elim (Bool-cases (is_empty p.exclude_rules)) [
      | inl empty ↦
          is_tun-route s (networks p.include_rules) full dest
            (rw (no_networks p.exclude_rules empty) at e) (map_valid p.include_rules.cidrs valid) h
            c
          ∙ sym (is_tun-route s [] trimmed dest (rw empty at f) tt h c)
      | inr some_rules ↦ one_plan full trimmed dest (sym e ∙ rw some_rules at f)
    ]
effective_at-route include p s full trimmed dest e f valid h c =
    elim (Bool-cases (is_empty p.include_rules)) [
      | inl empty ↦
          not_tun (route full dest) (
            route-ne-tun s [] (networks p.exclude_rules) full dest
              (rw (no_networks p.include_rules empty) at e) tt)
          ∙ sym
              (not_tun (route trimmed dest) (route-ne-tun s [] [] trimmed dest (rw empty at f) tt))
      | inr some_rules ↦ one_plan full trimmed dest (sym e ∙ rw some_rules at f)
    ]

-- The rules that `effective` drops change nothing: the plan made of all the rules of a split plan and
-- the plan made of its effective ones send a destination into the tunnel or keep it out alike, if
-- the include networks have valid prefixes and the tunnel carries the destination's family.
pub effective-route :
    (p : SplitPlan) (s : Session) (full trimmed : RoutePlan) (dest : IpAddr)
    → plan_for s p.base_mode (networks p.include_rules) (networks p.exclude_rules) ≡ planned full
    → plan_for s p.base_mode (networks (effective p).0) (networks (effective p).1) ≡ planned trimmed
    → All IsValid p.include_rules.cidrs
    → IsAddr dest
    → is_carried s dest ≡ true
    → is_tun (route full dest) ≡ is_tun (route trimmed dest)
unfolding effective
effective-route p s full trimmed dest e f valid h c =
    effective_at-route p.base_mode p s full trimmed dest e f valid h c
