-- ===== src/Handler/Startup.antt =====
-- ipc_handler.rs, `hydrate_providers` and `make_rotation_callback`.
--
-- `clock` is what the clock shows when an account's turn comes; going back a second from it may
-- panic.
use mail_mcp.Base.{String, none, some, List, [], ◌∷◌, Result, ok, err, ◌>>=◌, nat_key}
use mail_mcp.Base.Dict.{insert}
use mail_mcp.Base.Ids.{AccountId, Ulid}
use mail_mcp.Permissions.Storage.{Storage}
use mail_mcp.Accounts
use mail_mcp.Accounts.{Codec, Account}
use mail_mcp.Oauth.{Chrono, OAuthTokens, negsuc}
use mail_mcp.Secrets
use mail_mcp.Secrets.{Keyring, refresh_token}
use mail_mcp.Mail.Provider.{MailProvider}
use mail_mcp.Dispatch.Call.{ProviderRegistry}

module _ (T : Chrono) where
  -- The tokens that a provider starts with: none to use, and one to refresh with.
  unfoldable pub stale_tokens : T.Instant → String → Result (OAuthTokens T)
  stale_tokens now refresh = do
    expires_at ← T.add_seconds now (negsuc 0)
    ok (record {
      access_token = "";
      refresh_token = some refresh;
      expires_at = expires_at;
      scope = none;
    })

module _ (K : Keyring) (U : Ulid) where
  -- The closure of `make_rotation_callback`, which only logs a failure.
  unfoldable pub rotation_callback : AccountId → String → K.Store → K.Store
  rotation_callback account_id new_rt secrets =
      (Secrets.set K U account_id refresh_token new_rt secrets).1

module _ (C : Codec) (U : Ulid) (K : Keyring) (T : Chrono) {S : Type 0}
    (gmail : AccountId → OAuthTokens T → String → MailProvider S) (secrets : K.Store)
    (clock : AccountId → T.Instant) where
  -- The loop of `hydrate_providers`.
  unfoldable pub hydrate :
      List (Account C) → ProviderRegistry S → Result (Unit {0}) × ProviderRegistry S
  hydrate [] registry = (ok tt, registry)
  hydrate (acc ∷ accs) registry = elim (Secrets.get K U acc.id refresh_token secrets) [
    | err e ↦ (err e, registry)
    | ok none ↦ hydrate accs registry
    | ok (some refresh) ↦ elim (stale_tokens T (clock acc.id) refresh) [
      | err e ↦ (err e, registry)
      | ok tokens ↦ hydrate accs (insert acc.id (gmail acc.id tokens acc.email) registry)
    ]
  ]

  -- `hydrate_providers`
  unfoldable pub hydrate_providers :
      Storage → ProviderRegistry S → Result (Unit {0}) × ProviderRegistry S
  hydrate_providers storage registry = elim (Accounts.list C U storage).0 [
    | err e ↦ (err e, registry)
    | ok accs ↦ hydrate accs registry
  ]
