-- ===== src/Oauth/Google.antt =====
-- crates/mail-mcp-core/src/oauth/google.rs: the endpoints and scopes of Google.
use mail_mcp.Base.{String, [], ◌∷◌}
use mail_mcp.Oauth.{ProviderConfig}

unfoldable pub config : String → ProviderConfig
config client_id = record {
  auth_url = "https://accounts.google.com/o/oauth2/v2/auth";
  token_url = "https://oauth2.googleapis.com/token";
  client_id = client_id;
  default_scopes =
      "https://www.googleapis.com/auth/gmail.modify"
      ∷ "https://www.googleapis.com/auth/gmail.compose"
      ∷ "https://www.googleapis.com/auth/gmail.send" ∷ "openid" ∷ "email" ∷ "profile" ∷ [];
}
