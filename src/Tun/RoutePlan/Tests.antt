-- ===== src/Tun/RoutePlan/Tests.antt =====
-- A session with an IPv4 server and both families carried, and the theorems at it.
use leshiy.Prelude.{◌≡◌, ◌≢◌, refl, true, false, none, some, [], ◌∷◌, arith}
use leshiy.Prelude.Net.{IpAddr, v4, v6, same_addr}
use leshiy.Client.SplitTunnel.{SplitPlan, exclude, include, effective, no_rules}
use leshiy.Tun.RoutePlan.{
  Cidr, RoutePlan, Planned, planned, from_split, from_split_cidr, override_halves, bypasses,
  gateway_for, is_default_override, with_split, full_tunnel,
}
use leshiy.Tun.RoutePlan.Kernel.{tun, matches, better, best_of, table, route}
use leshiy.Tun.RoutePlan.Tunneled.{Session, plan_for}
use leshiy.Tun.RoutePlan.Leaks.{route-tun, route-ne-tun, effective-route, is_tun, networks}

abbrev session : Session
session = record {
  server_ip = v4 (203 ∷ 0 ∷ 113 ∷ 7 ∷ []);
  orig_gateway = v4 (192 ∷ 168 ∷ 1 ∷ 1 ∷ []);
  orig_gateway6 = none;
  tun_addr = v4 (10 ∷ 8 ∷ 0 ∷ 2 ∷ []);
  tun_addr6 = some (v6 (253 ∷ 0 ∷ 0 ∷ 0 ∷ 0 ∷ 0 ∷ 0 ∷ 0 ∷ 0 ∷ 0 ∷ 0 ∷ 0 ∷ 0 ∷ 0 ∷ 0 ∷ 2 ∷ []));
}

abbrev plan_in : Planned → RoutePlan
plan_in (planned plan) = plan
plan_in (Planned.family_mismatch a b) = record {
  tun_addr = a;
  tun_addr6 = none;
  via_tun = [];
  server_exception = record { dest = record { addr = a; prefix = 0 }; gateway = b };
  bypass = [];
  orig_gateway6 = none;
}

abbrev lan : Cidr
lan = record { addr = v4 (192 ∷ 168 ∷ 0 ∷ 0 ∷ []); prefix = 16 }

abbrev site : IpAddr
site = v4 (93 ∷ 184 ∷ 216 ∷ 34 ∷ [])

abbrev around_lan : RoutePlan
around_lan = plan_in (plan_for session exclude [] (lan ∷ []))

abbrev only_lan : RoutePlan
only_lan = plan_in (plan_for session include (lan ∷ []) [])

lan_direct : is_tun (route around_lan (v4 (192 ∷ 168 ∷ 7 ∷ 7 ∷ []))) ≡ false
unfolding from_split bypasses gateway_for override_halves route table best_of better matches
lan_direct = refl

halves_named : is_default_override (record { addr = v4 (128 ∷ 0 ∷ 0 ∷ 0 ∷ []); prefix = 1 }) ≡ true
unfolding is_default_override same_addr
halves_named = refl

full_is_empty_split :
    full_tunnel session.server_ip session.orig_gateway session.tun_addr
    ≡ with_split exclude [] session.server_ip session.orig_gateway session.tun_addr none
unfolding full_tunnel
full_is_empty_split = refl

route-tun_example : route around_lan site ≡ tun
unfolding from_split matches
route-tun_example =
    route-tun session [] (lan ∷ []) around_lan site refl (omega arith, refl) refl refl (refl, tt)

route-ne-tun_example : route only_lan site ≢ tun
unfolding from_split matches
route-ne-tun_example = route-ne-tun session (lan ∷ []) [] only_lan site refl (refl, tt)

-- An Include subscription under the default base, which is dropped.
abbrev rules : SplitPlan
rules = record {
  base_mode = exclude;
  include_rules = record {
    cidrs = record { addr = v4 (10 ∷ 0 ∷ 0 ∷ 0 ∷ []); prefix = 8 } ∷ [];
    domains = [];
  };
  exclude_rules = no_rules;
}

abbrev with_all : RoutePlan
with_all = plan_in (plan_for session exclude (networks rules.include_rules) [])

abbrev with_none : RoutePlan
with_none = plan_in (plan_for session exclude [] [])

effective-route_example : is_tun (route with_all site) ≡ is_tun (route with_none site)
unfolding from_split effective from_split_cidr
effective-route_example =
    effective-route rules session with_all with_none site refl refl (omega arith, tt)
      (omega arith, refl) refl
