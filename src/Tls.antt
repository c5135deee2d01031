-- ===== src/Tls.antt =====
-- crates/leshiy-tls: the TLS records that carry the session, the handshake messages in them, and
-- the random parts of a ClientHello.
pub mod Error
pub mod Record
pub mod Messages
pub mod Camouflage
pub mod Parser
pub mod ClientHello
pub mod Protected
pub mod Fingerprint
pub mod Builder
pub mod Ja
pub mod Suite
pub mod Schedule
