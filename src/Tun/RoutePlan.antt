-- ===== src/Tun/RoutePlan.antt =====
-- crates/leshiy-tun/src/route_plan.rs: the routing changes of a session.
pub mod Kernel
pub mod Tunneled
pub mod Leaks
mod Tests
use leshiy.Prelude.{
  ℕ, Bool, true, false, not, ◌&&◌, ◌||◌, Option, none, some, List, [], ◌∷◌, ◌++◌, map, ◌==◌,
  if◌then◌else◌,
}
use leshiy.Prelude.Net.{IpAddr, v4, v6, is_ipv4, same_addr}
use leshiy.Client.SplitTunnel.{SplitMode, SplitCidr, exclude, include}

pub record Cidr : Type 0 where
  pub addr : IpAddr
  pub prefix : ℕ

abbrev pub unspecified4 : IpAddr
unspecified4 = v4 (0 ∷ 0 ∷ 0 ∷ 0 ∷ [])

abbrev pub upper4 : IpAddr
upper4 = v4 (128 ∷ 0 ∷ 0 ∷ 0 ∷ [])

abbrev pub fifteen_zeros : List ℕ
fifteen_zeros = 0 ∷ 0 ∷ 0 ∷ 0 ∷ 0 ∷ 0 ∷ 0 ∷ 0 ∷ 0 ∷ 0 ∷ 0 ∷ 0 ∷ 0 ∷ 0 ∷ 0 ∷ []

abbrev pub unspecified6 : IpAddr
unspecified6 = v6 (0 ∷ fifteen_zeros)

abbrev pub upper6 : IpAddr
upper6 = v6 (128 ∷ fifteen_zeros)

unfoldable pub is_default_override : Cidr → Bool
is_default_override c =
    if not (c.prefix == 1)
    then false
    else if is_ipv4 c.addr
    then same_addr c.addr unspecified4 || same_addr c.addr upper4
    else same_addr c.addr unspecified6 || same_addr c.addr upper6

pub record ServerException : Type 0 where
  pub dest : Cidr
  pub gateway : IpAddr

pub record RoutePlan : Type 0 where
  pub tun_addr : IpAddr
  pub tun_addr6 : Option IpAddr
  pub via_tun : List Cidr
  pub server_exception : ServerException
  pub bypass : List ServerException
  pub orig_gateway6 : Option IpAddr

pub data Planned : Type 0 where
  family_mismatch : IpAddr → IpAddr → Planned
  planned : RoutePlan → Planned

unfoldable pub from_split_cidr : SplitCidr → Cidr
from_split_cidr c = record { addr = c.addr; prefix = c.prefix }

abbrev pub is_given : Option IpAddr → Bool
is_given none = false
is_given (some addr) = true

abbrev pub is_exclude : SplitMode → Bool
is_exclude exclude = true
is_exclude include = false

abbrev pub both : Bool → Bool → Bool
both true b = b
both false b = not b

-- The halves of each address family that override the default route.
unfoldable pub override_halves : Option IpAddr → List Cidr
override_halves tun_addr6 =
    record { addr = unspecified4; prefix = 1 }
    ∷ record { addr = upper4; prefix = 1 }
    ∷ (if is_given tun_addr6
        then record { addr = unspecified6; prefix = 1 } ∷ record { addr = upper6; prefix = 1 } ∷ []
        else [])

abbrev pub bypass_via : Cidr → Option IpAddr → List ServerException
bypass_via c none = []
bypass_via c (some gateway) = record { dest = c; gateway = gateway } ∷ []

-- The gateway of the network's own family, if there is one.
unfoldable pub gateway_for : IpAddr → Option IpAddr → Cidr → Option IpAddr
gateway_for orig_gateway v6_gateway c =
    if is_ipv4 c.addr then if is_ipv4 orig_gateway then some orig_gateway else none else v6_gateway

unfoldable pub bypasses : IpAddr → Option IpAddr → List Cidr → List ServerException
bypasses orig_gateway v6_gateway [] = []
bypasses orig_gateway v6_gateway (c ∷ cidrs) =
    bypass_via c (gateway_for orig_gateway v6_gateway c) ++ bypasses orig_gateway v6_gateway cidrs

unfoldable pub from_split :
    SplitMode
    → List Cidr
    → List Cidr
    → IpAddr
    → IpAddr
    → Option IpAddr
    → IpAddr
    → Option IpAddr
    → Planned
from_split base_mode include_cidrs exclude_cidrs server_ip orig_gateway orig_gateway6 tun_addr
      tun_addr6 =
    let v6_gateway = if not (is_ipv4 orig_gateway) then some orig_gateway else orig_gateway6 in
    if not (both (is_ipv4 server_ip) (is_ipv4 orig_gateway))
    then family_mismatch server_ip orig_gateway
    else planned (record {
      tun_addr = tun_addr;
      tun_addr6 = tun_addr6;
      via_tun = (if is_exclude base_mode then override_halves tun_addr6 else []) ++ include_cidrs;
      server_exception = record {
        dest = record { addr = server_ip; prefix = if is_ipv4 server_ip then 32 else 128 };
        gateway = orig_gateway;
      };
      bypass = bypasses orig_gateway v6_gateway exclude_cidrs;
      orig_gateway6 = v6_gateway;
    })

unfoldable pub with_split :
    SplitMode → List Cidr → IpAddr → IpAddr → IpAddr → Option IpAddr → Planned
with_split exclude static_cidrs server_ip orig_gateway tun_addr tun_addr6 =
    from_split exclude [] static_cidrs server_ip orig_gateway none tun_addr tun_addr6
with_split include static_cidrs server_ip orig_gateway tun_addr tun_addr6 =
    from_split include static_cidrs [] server_ip orig_gateway none tun_addr tun_addr6

unfoldable pub full_tunnel : IpAddr → IpAddr → IpAddr → Planned
full_tunnel server_ip orig_gateway tun_addr =
    with_split exclude [] server_ip orig_gateway tun_addr none
