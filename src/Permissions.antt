-- ===== src/Permissions.antt =====
-- crates/mail-mcp-core/src/permissions/mod.rs and storage.rs: categories, policies, the database
-- and an account's policy table. A `HashMap<Category, Policy>` is a `Dict`.
pub mod Category
pub mod Policy
pub mod Storage
pub mod Table
pub mod Select
pub mod Rows
pub mod Laws
