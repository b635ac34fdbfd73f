-- ===== src/M365.antt =====
-- crates/mail-mcp-core/src/providers/m365: the Microsoft 365 provider, over Graph.
pub mod Triage
pub mod Folders
pub mod Parse
pub mod Messages
pub mod Compose
pub mod Provider
pub mod Keeping
