-- ===== src/Oauth/Microsoft.antt =====
-- crates/mail-mcp-core/src/oauth/microsoft.rs: the endpoints and scopes of Microsoft.
use mail_mcp.Base.{String, [], ◌∷◌}
use mail_mcp.Oauth.{ProviderConfig}

unfoldable pub config : String → ProviderConfig
config client_id = record {
  auth_url = "https://login.microsoftonline.com/common/oauth2/v2.0/authorize";
  token_url = "https://login.microsoftonline.com/common/oauth2/v2.0/token";
  client_id = client_id;
  default_scopes =
      "offline_access" ∷ "https://graph.microsoft.com/Mail.ReadWrite"
      ∷ "https://graph.microsoft.com/Mail.Send" ∷ "https://graph.microsoft.com/User.Read" ∷ [];
}
