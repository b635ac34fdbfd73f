-- ===== src/Daemon.antt =====
-- crates/mail-mcp-daemon/src/main.rs: the task that forwards approval events to the IPC clients, and
-- the state that the daemon starts with.
pub mod Start
use mail_mcp.Base.{ℕ, false, String, Option, none, some, List, [], ◌∷◌, Result, ok, err, ◌++◌}
use mail_mcp.Base.Ids.{AccountId, Ulid}
use mail_mcp.Permissions.Storage.{Storage}
use mail_mcp.Accounts.{Codec}
use mail_mcp.Approvals
use mail_mcp.Approvals.{
  Oneshot, ApprovalDecision, approve, reject, ApprovalEvent, requested, resolved,
}
use mail_mcp.Oauth.{Chrono, OAuthTokens}
use mail_mcp.Secrets.{Keyring}
use mail_mcp.Mail.Provider.{MailProvider}
use mail_mcp.Dispatch.Call.{ProviderRegistry}
use mail_mcp.Ipc.Messages.{Notification, approval_requested, approval_resolved}
use mail_mcp.Handler.State.{Daemon}
use mail_mcp.Handler.Startup.{hydrate_providers}

unfoldable pub decision_text : ApprovalDecision → String
decision_text approve = "approve"
decision_text reject = "reject"

module _ (V : Type 0) (C : Codec) (U : Ulid) where
  -- The match on the event.
  unfoldable pub notification_of : ApprovalEvent V → Notification V C
  notification_of (requested p) = approval_requested p
  notification_of (resolved id decision) =
      approval_resolved (U.to_string id) (decision_text decision)

  -- The task's loop over what `recv` yields, `none` where it fails: what it sends.
  unfoldable pub forward_events : List (Option (ApprovalEvent V)) → List (Notification V C)
  forward_events [] = []
  forward_events (none ∷ rest) = []
  forward_events (some evt ∷ rest) = notification_of evt ∷ forward_events rest

module _ (V : Type 0) (C : Codec) (U : Ulid) (O : Oneshot) (K : Keyring) (T : Chrono) {S : Type 0}
    (gmail : AccountId → OAuthTokens T → String → MailProvider S)
    (clock : AccountId → T.Instant) where
  -- The `DaemonHandler` of `main`; its pause flag and its sign-ins are new.
  unfoldable pub new_handler : Storage → K.Store → ProviderRegistry S → Daemon V C O K T S
  new_handler storage secrets registry = record {
    storage = storage;
    secrets = secrets;
    providers = registry;
    approvals = Approvals.new O;
    mcp_paused = false;
    pending_oauth = [];
    sent = [];
  }

  -- The handler over the storage and the keychain that `main` has opened, or the error that ends the
  -- start.
  unfoldable pub started : Storage → K.Store → Result (Daemon V C O K T S)
  started storage secrets =
      let (r, registry) = hydrate_providers C U K T gmail secrets clock storage [] in
      elim r [ err e ↦ err e | ok _ ↦ ok (new_handler storage secrets registry) ]
