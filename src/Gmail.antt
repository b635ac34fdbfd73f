-- ===== src/Gmail.antt =====
-- crates/mail-mcp-core/src/providers/gmail: the Gmail provider.
pub mod Parse
pub mod Triage
pub mod Trash
pub mod Labels
pub mod Messages
pub mod Compose
pub mod Provider
pub mod Keeping
