-- ===== src/Admin.antt =====
-- crates/mail-mcp-admin: the command line client of the daemon.
pub mod Client
pub mod Agreement
pub mod Exchange
pub mod Commands
pub mod Effects
