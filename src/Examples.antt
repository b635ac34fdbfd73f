-- ===== src/Examples.antt =====
-- Concrete inputs: stand-ins for what is not part of the repository, and the theorems applied to them.
mod Instances
mod Keychain
mod Daemons
mod Signing
mod Serving
mod Connecting
mod Labelling
mod Searching
mod Documents
mod Mailbox
mod Approving
mod Enforcing
mod Policies
mod Dispatching
mod Tokens
mod Caching
mod Calling
mod Locking
mod Piping
mod Renewing
mod Shimming
mod Starting
mod Redirects
mod Registering
mod Requests
mod Parts
mod Trashing
