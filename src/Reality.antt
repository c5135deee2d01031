-- ===== src/Reality.antt =====
-- crates/leshiy-reality: the authentication of a ClientHello and the guards on the server's accept
-- path.
pub mod AcceptLoop
pub mod Auth
pub mod Client
pub mod ConnLimit
pub mod Handshake
pub mod Netguard
pub mod Replay
pub mod User
