-- ===== src/Core.antt =====
-- crates/leshiy-core: frames, the sealed session, negotiation, ICMP echo and the multiplexer.
pub mod Error
pub mod Frame
pub mod Icmp
pub mod Mux
pub mod Session
pub mod Version
