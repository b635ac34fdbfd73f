-- ===== src/Lib.antt =====
-- Verification library for mail-mcp, a daemon that lets an MCP client use the user's mail accounts.
--
-- A tool call arrives at the daemon (crates/mail-mcp-daemon/src/mcp), which looks up the account's
-- provider and its policies, asks the user where the policies say so, and only then calls the
-- provider. The modules follow the crates:
--
-- Base: what the modules share. Outcome has `Error` and `Result` (crates/mail-mcp-core/src/error.rs),
--   Ids the ids of types.rs, Dict the association lists that stand for maps, State the monad of
--   fallible steps on a state, Keeps the properties that such steps keep, Lists the list lemmas,
--   Texts the operations of str with the lemmas on splitting.
-- Json: the values of serde_json as an interface. Whatever is not under crates/ is such an interface,
--   a record of operations and of the documented laws the code relies on: `Json`, `Serde` (the
--   decoding of argument structs, in Dispatch/Execute), `Ulid` (the text of ids, in Base/Ids),
--   `Oneshot` (tokio's channel, in Approvals), `Chrono` (instants, in Oauth), `Codec` (texts and
--   timestamps of the account table, in Accounts), `Http` and `Reqwest` (requests, in AuthClient),
--   `Rpc` (what the server writes, in Server), `Keyring` (the OS keychain, in Secrets), `Writers`,
--   `Wire` and `Socket` (what serde writes and reads and a socket takes, in Ipc), `RestClient`
--   (requests of a provider, in Mail/Client), `MessageBuilder` and `Shapes` (MIME and the payloads
--   of drafts, in Gmail/Compose), `Reading` (what a provider takes from other crates, in each
--   Provider), `Lru` (the lru crate, in Cache), `Replies` (what serde reads of a response, in
--   Admin/Client), `Agree` (what serde_json writes is read back, in Admin/Agreement), `PathBuf` and
--   `Platform` (paths and the environment, in Paths).
-- Permissions (crates/mail-mcp-core/src/permissions/mod.rs): Category and Policy with their names,
--   Storage (storage.rs and migrations/0001_init.sql) with the rows of the tables, and Table with
--   the operations `for_account`, `set` and `install_defaults`. Select, Rows and Laws have the proofs.
-- Accounts (crates/mail-mcp-core/src/accounts.rs): the account table over the same storage. Rows and
--   Lifecycle have the proofs.
-- Approvals (permissions/approvals.rs): the queue, its operations as atomic steps, and the future
--   that waits for a decision among the steps of other tasks. Consent, Steps and Resolution have the
--   proofs.
-- Enforce (permissions/enforce.rs): `enforce` and the session trust. Safety and Trust have the
--   proofs.
-- Oauth (crates/mail-mcp-core/src/oauth/mod.rs): the tokens and the calls of the token endpoint.
--   Authorize has the authorization URL and the sign-in from the redirect to the tokens, with its
--   proof in Code. Google and Microsoft have the configurations of the providers. Loopback
--   (oauth/loopback.rs) is the listener for the browser's redirect, with the loop over a query in
--   Query, the worth of one request in Verdict and the wait in Callback.
-- AuthClient (crates/mail-mcp-core/src/providers/gmail/client.rs): the client that keeps tokens fresh,
--   among other tasks that share them. Refresh, Retry and Race have the proofs. Requests has its
--   methods as the `RestClient` of both providers; Keychain follows the saved refresh token through
--   whole operations of them.
-- Mail (crates/mail-mcp-core/src/providers/types.rs and trait.rs): the data and the contract of a
--   provider, whose operations act on a remote mailbox of any type. Client is what they use of
--   `AuthClient`: requests, up to the check of the status. Operation has the operations as data, and
--   Keeping what a series of them keeps, with Gmail/Keeping and M365/Keeping for each provider.
-- Gmail (crates/mail-mcp-core/src/providers/gmail): Parse (parse.rs) is the walk over a message's MIME
--   parts and the reading of its labels, with the proofs in Parts, Bodies and Folder, the addresses
--   of its headers in Addresses, with the proofs in Names and Lists, and the whole message in
--   Decode; Triage (triage.rs) has the edits of labels, with the proofs in Edits; Trash, Labels,
--   Messages and Compose are the files of these names; Provider (provider.rs) joins the operations
--   as one MailProvider.
-- M365 (crates/mail-mcp-core/src/providers/m365): Triage (triage.rs), with the proofs in Categories,
--   Folders, Parse, Messages, with the proofs in Threads, Compose and Provider.
-- Tools and Dispatch (crates/mail-mcp-daemon/src/mcp/tools.rs and dispatch.rs): the tool table, the
--   handler of each tool, and `dispatch`. Safety, Draftify and Trashing have the proofs.
-- Server (crates/mail-mcp-daemon/src/mcp/server.rs): the JSON-RPC handler of `POST /mcp`, from the
--   bearer token to `dispatch`. Authorized and Reach have the proofs.
-- Secrets (crates/mail-mcp-core/src/secrets.rs): the secrets of the accounts. Entries has the proofs.
-- Ipc (crates/mail-mcp-core/src/ipc): Messages has the answers and notifications of messages.rs, and
--   Server one connection of server.rs with the task that forwards notifications. Frames is the
--   abstract machine that yields the frames of a connection; Writes, Forwarding, Delivery and Lost
--   have the proofs. What the task receives while a line is answered is written ahead of its response.
--   Transport is transport.rs, pipe and socket file, with the loop of `bind_and_serve` over it;
--   Retries and Instances have its proofs.
-- Handler (crates/mail-mcp-daemon/src/ipc_handler.rs): the daemon's state in State, the methods that
--   add and remove accounts in Signup, the others and `handle` in Methods, `hydrate_providers` in
--   Startup. Each method is one step on this state. In the source the handlers of several connections
--   run at the same time and wait between their updates of the database, the keychain and the
--   registry: a removal in the middle of a `complete_oauth`, or between the statements of another
--   removal, is no run of the model. Registration, Completion, Removal, Invariants, Backing, Runs,
--   Policies, Paused and Hydration have the proofs.
-- Daemon (crates/mail-mcp-daemon/src/main.rs): the state that the daemon starts with, and the task
--   that forwards approval events; Start has the proofs.
-- Lifecycle (crates/mail-mcp-daemon/src/lifecycle.rs): the pid file and the endpoint file. Locking
--   is what processes do with the lock, a step relation; Exclusion and Endpoint have the proofs.
-- Cache (crates/mail-mcp-core/src/cache.rs): the cache of messages. Entries has lemmas on what it
--   holds, Isolation the specification that forgets nothing and the proofs.
-- Paths (crates/mail-mcp-core/src/paths.rs): the files of an installation on each platform.
-- Admin (crates/mail-mcp-admin/src): Client is the client's end of an IPC connection
--   (ipc_client.rs), Commands the commands of main.rs. Agreement is what is assumed of the two ends,
--   Exchange puts the client against the server of Ipc, Effects the commands against the methods of
--   Handler.
-- Shim (crates/mail-mcp-stdio/src/main.rs): the loop that forwards lines to the server over HTTP;
--   Forwarding puts it in front of Server.
-- Examples: concrete worlds at which the theorems are applied.
--
-- Asynchronous code is written as explicit state passing. A mutex makes an operation one atomic
-- step; where a task of Approvals, Enforce, AuthClient or Ipc/Server waits, the steps that other tasks
-- take meanwhile are an argument. The methods of Handler and the table operations of Accounts and
-- Permissions are whole steps, although the source awaits inside them. Clocks and
-- fresh ids are arguments. No definition uses fuel: every loop is over a list, a text or a
-- tree of message parts, or over a number of rounds, the fifty of the source in `connect`. Loops
-- that never end, such as that of `bind_and_serve`, are over the list of what they meet.
--
-- Not modelled: the random texts and the hash of PKCE and the random bearer token; the SQLite
-- driver and its migrations; logging, whose `redact` is a call of the regex crate; what `main` of
-- each program does with files, sockets and signals before and after what is modelled; clap's
-- reading of a command line; and the tray applications, which are clients of the IPC socket in
-- other languages.
pub mod Base
pub mod Json
pub mod Permissions
pub mod Accounts
pub mod Secrets
pub mod Cache
pub mod Approvals
pub mod Enforce
pub mod Oauth
pub mod AuthClient
pub mod Mail
pub mod Gmail
pub mod M365
pub mod Tools
pub mod Dispatch
pub mod Server
pub mod Ipc
pub mod Handler
pub mod Admin
pub mod Lifecycle
pub mod Shim
pub mod Paths
pub mod Daemon
mod Examples
