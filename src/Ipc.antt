-- ===== src/Ipc.antt =====
-- crates/mail-mcp-core/src/ipc/: what the daemon and the tray application say to each other.
--
-- Messages has ipc/messages.rs, Server one connection of ipc/server.rs.
pub mod Messages
pub mod Server
pub mod Transport
