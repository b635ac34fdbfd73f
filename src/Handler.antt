-- ===== src/Handler.antt =====
-- crates/mail-mcp-daemon/src/ipc_handler.rs: the methods that the tray application and the admin
-- client call.
--
-- State has the daemon's state, Signup the methods that add and remove accounts, Methods the others
-- and `handle`, and Startup `hydrate_providers`.
pub mod State
pub mod Signup
pub mod Methods
pub mod Startup
pub mod Hydration
pub mod Removal
pub mod Registration
pub mod Completion
pub mod Invariants
pub mod Backing
pub mod Runs
pub mod Paused
pub mod Policies
