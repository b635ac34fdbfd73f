-- ===== src/Handler/Signup.antt =====
-- ipc_handler.rs, `add_oauth`, `complete_oauth`, `cancel_oauth` and `remove_account`.
--
-- `gmail` is `GmailProvider::new` over the client that keeps the tokens, with the rotation callback
-- of the account. New ids, the clock, what `begin_authorization` returns and what the spawned task
-- will end with are arguments. A method is one step on the state: what handlers of other connections
-- do at its awaits, between the row, the secret and the registry, is left out.
use Prim.Native.String.{◌++◌}
use mail_mcp.Base.{
  ℕ, String, Option, none, some, List, [], Result, err, provider, not_found, oauth, internal, ok_or,
  unwrap_or, if◌then◌else◌, ◌==◌, string_key, nat_key,
}
use mail_mcp.Base.Dict.{lookup, insert, remove}
use mail_mcp.Base.State.{M, ◌>>=◌, ◌>>◌, pure, throw, lift, modify}
use mail_mcp.Base.Ids.{AccountId, Ulid}
use mail_mcp.Base.Texts.{split}
use mail_mcp.Json.{Json}
use mail_mcp.Permissions.Table.{install_defaults}
use mail_mcp.Accounts
use mail_mcp.Accounts.{Codec, NewAccount, Account}
use mail_mcp.Approvals.{Oneshot}
use mail_mcp.Oauth.{Chrono, OAuthTokens}
use mail_mcp.Oauth.Authorize.{AuthChallenge}
use mail_mcp.Secrets
use mail_mcp.Secrets.{Keyring, KeyKind, refresh_token}
use mail_mcp.Mail.Provider.{MailProvider}
use mail_mcp.Ipc.Messages.{account_added, account_removed, Writers, in_progress_value}
use mail_mcp.Handler.State.{
  Joined, panicked, finished, Daemon, on_storage, on_secrets, send_notification, str_param,
  required, id_param,
}

-- `.map_err(..)??` on the join handle
unfoldable pub joined : {T : Chrono} → Joined T → Result (OAuthTokens T × String)
joined (panicked e) = err (internal ("oauth task panicked: " ++ e))
joined (finished r) = r

-- The `scopes` of the new account.
unfoldable pub scopes_of : Option String → List String
scopes_of none = []
scopes_of (some s) = split b' ' s

module _ (J : Json) (C : Codec) (U : Ulid) (O : Oneshot) (K : Keyring) (T : Chrono)
    (S : Type 0) where
  abbrev Handled : Type 0
  Handled = M (Daemon J.Value C O K T S) J.Value

  -- `add_oauth`
  unfoldable pub add_oauth :
      (challenge_id : String) → Result AuthChallenge → Joined T → J.Value → Handled
  add_oauth challenge_id begun task params = do
    kind ← lift (required J params "provider")
    challenge ←
        if kind == "gmail"
        then lift begun
        else throw (provider ("provider not supported in v0.1a: " ++ kind))
    modify (λ d. record d {
      pending_oauth =
          insert challenge_id (record { label_hint = none; join = task }) d.pending_oauth;
    })
    pure (in_progress_value J U challenge_id challenge.auth_url)

  -- `cancel_oauth`
  unfoldable pub cancel_oauth : J.Value → Handled
  cancel_oauth params = do
    cid ← lift (required J params "challenge_id")
    modify (λ d. record d { pending_oauth = remove cid d.pending_oauth })
    pure (J.object [])

  -- `self.pending_oauth.lock().await.remove(&cid)`, and the task's result
  unfoldable pub take_pending : String → M (Daemon J.Value C O K T S) (OAuthTokens T × String)
  take_pending cid d = elim (lookup cid d.pending_oauth) [
    | none ↦ (err (not_found ("challenge " ++ cid)), d)
    | some p ↦ (joined p.join, record d { pending_oauth = remove cid d.pending_oauth })
  ]

  -- `self.secrets.set(..)?`, or the error without a refresh token
  unfoldable pub keep_refresh_token :
      AccountId → Option String → M (Daemon J.Value C O K T S) (Unit {0})
  keep_refresh_token id none =
      throw
        (oauth "Google did not return a refresh_token; ensure prompt=consent + access_type=offline")
  keep_refresh_token id (some rt) = on_secrets (Secrets.set K U id refresh_token rt)

  module _ (W : Writers J C) (empty_config : C.Value)
      (gmail : AccountId → OAuthTokens T → String → MailProvider S) where
    -- The account that `complete_oauth` stores.
    unfoldable pub new_account : (label email : String) → Option String → NewAccount C
    new_account label email scope = record {
      label = if label == "" then email else label;
      provider = Accounts.gmail;
      email = email;
      config = empty_config;
      scopes = scopes_of scope;
    }

    -- `complete_oauth` once the task's result is there.
    unfoldable pub register :
        AccountId → (now : ℕ) → (label : String) → OAuthTokens T → (email : String) → Handled
    register new_id now label tokens email = do
      id ← on_storage (Accounts.create C U new_id now (new_account label email tokens.scope))
      on_storage (install_defaults U id)
      keep_refresh_token id tokens.refresh_token
      modify (λ d. record d { providers = insert id (gmail id tokens email) d.providers })
      stored ← on_storage (Accounts.get C U id)
      account ← lift (ok_or stored (internal "account vanished"))
      modify (send_notification (account_added account))
      lift (W.account account)

    -- `complete_oauth`
    unfoldable pub complete_oauth : AccountId → (now : ℕ) → J.Value → Handled
    complete_oauth new_id now params = do
      cid ← lift (required J params "challenge_id")
      let label = unwrap_or (str_param J params "label") ""
      (tokens, email) ← take_pending cid
      register new_id now label tokens email

  -- `remove_account`
  unfoldable pub remove_account : J.Value → Handled
  remove_account params = do
    id ← lift (id_param J U params "account_id")
    on_storage (Accounts.delete C U id)
    modify (λ d. record d { secrets = Secrets.purge K U id d.secrets })
    modify (λ d. record d { providers = remove id d.providers })
    modify (send_notification (account_removed id))
    pure (J.object [])
