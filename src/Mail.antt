-- ===== src/Mail.antt =====
-- crates/mail-mcp-core/src/providers/: the domain types of mail and the provider interface.
pub mod Types
pub mod Provider
pub mod Operation
pub mod Keeping
pub mod Client
