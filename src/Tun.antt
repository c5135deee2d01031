-- ===== src/Tun.antt =====
-- crates/leshiy-tun: which traffic rides the tunnel.
pub mod RoutePlan
