-- ===== src/Tun/RoutePlan/Kernel.antt =====
-- What a routing table does with a plan: the longest matching prefix decides, and the default route
-- stays what it was. Of two routes with one prefix the earlier counts.
use leshiy.Prelude.{
  ℕ, ◌+◌, ◌-◌, ◌/◌, ◌^◌, Bool, ◌&&◌, List, [], ◌∷◌, ◌++◌, map, ltb, ◌==◌, if◌then◌else◌,
}
use leshiy.Prelude.Net.{IpAddr, is_ipv4, octets}
use leshiy.Prelude.Bytes.{from_be}
use leshiy.Client.SplitTunnel.{width}
use leshiy.Tun.RoutePlan.{Cidr, ServerException, RoutePlan, both}

pub data Via : Type 0 where
  default tun : Via
  gateway : IpAddr → Via

-- The address has the network's family and its first bits.
unfoldable pub matches : Cidr → IpAddr → Bool
matches c dest =
    both (is_ipv4 c.addr) (is_ipv4 dest)
    && (from_be (octets c.addr) / 2 ^ (width c.addr - c.prefix)
        == from_be (octets dest) / 2 ^ (width c.addr - c.prefix))

abbrev pub Route : Type 0
Route = Cidr × Via

-- The best route so far is kept with its prefix, plus one, and zero stands for the default route.
unfoldable pub better : IpAddr → Route → ℕ × Via → ℕ × Via
better dest r best =
    if matches r.0 dest && ltb best.0 (r.0.prefix + 1) then (r.0.prefix + 1, r.1) else best

unfoldable pub best_of : IpAddr → List Route → ℕ × Via → Via
best_of dest [] best = best.1
best_of dest (r ∷ routes) best = best_of dest routes (better dest r best)

abbrev pub by_tun : Cidr → Route
by_tun c = (c, tun)

abbrev pub by_gateway : ServerException → Route
by_gateway e = (e.dest, gateway e.gateway)

unfoldable pub table : RoutePlan → List Route
table plan =
    by_gateway plan.server_exception ∷ (map by_gateway plan.bypass ++ map by_tun plan.via_tun)

unfoldable pub route : RoutePlan → IpAddr → Via
route plan dest = best_of dest (table plan) (0, default)
