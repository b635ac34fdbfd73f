-- ===== src/Examples/Daemons.antt =====
-- A daemon with one account and one sign-in that has ended.
use mail_mcp.Base.{ℕ, String, Option, none, some, [], ◌∷◌, false, ok}
use mail_mcp.Approvals.{new}
use mail_mcp.Oauth.{OAuthTokens}
use mail_mcp.Mail.Provider.{MailProvider}
use mail_mcp.Ipc.Messages.{McpEndpointInfo, Writers}
use mail_mcp.Handler.State.{finished, Daemon}
use mail_mcp.Examples.Instances.{channel}
use mail_mcp.Examples.Documents.{Doc, json, null}
use mail_mcp.Examples.Mailbox.{Log, mailbox}
use mail_mcp.Examples.Policies.{database}
use mail_mcp.Examples.Registering.{codec}
use mail_mcp.Examples.Tokens.{seconds}
use mail_mcp.Examples.Keychain.{ring}

abbrev pub writers : Writers json codec
writers = record {
  account = λ a. ok null;
  pending = λ ps. ok null;
  requested = λ p. null;
  added = λ a. null;
}

abbrev pub endpoint : McpEndpointInfo
endpoint = record { url = "http://127.0.0.1"; bearer_token = "t"; stdio_shim_path = none }

abbrev pub fresh_tokens : Option String → OAuthTokens seconds
fresh_tokens refresh = record {
  access_token = "AT";
  refresh_token = refresh;
  expires_at = 100;
  scope = some "mail";
}

abbrev pub gmail : ℕ → OAuthTokens seconds → String → MailProvider Log
gmail id tokens email = mailbox

abbrev pub Daemons : Type 0
Daemons = Daemon Doc codec channel ring seconds Log

abbrev pub daemon : Option String → Daemons
daemon refresh = record {
  storage = record database { permissions = [] };
  secrets = λ service user. none;
  providers = (1, mailbox) ∷ [];
  approvals = new channel;
  mcp_paused = false;
  pending_oauth =
      (
        "c",
        record { label_hint = none; join = finished (ok (fresh_tokens refresh, "b@example.com")) },
      )
      ∷ [];
  sent = [];
}

abbrev pub field : String → String → Doc
field key value = json.object ((key, json.string value) ∷ [])
