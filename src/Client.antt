-- ===== src/Client.antt =====
-- crates/leshiy-client: the desktop client's supervisor and the tasks it runs.
pub mod Supervisor
pub mod Runtime
pub mod SplitTunnel
