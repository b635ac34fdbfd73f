-- ===== src/Dispatch.antt =====
-- crates/mail-mcp-daemon/src/mcp/dispatch.rs: a tool call, from the arguments to the provider.
pub mod Args
pub mod Execute
pub mod Call
pub mod Safety
pub mod Draftify
pub mod Trashing
