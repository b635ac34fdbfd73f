-- ===== src/Handler/Removal.antt =====
-- What `remove_account` leaves behind.
use mail_mcp.Base.{◌≡◌, refl, ◌≢◌, none, [], ◌∷◌, ok, arith, nat_key}
use mail_mcp.Base.Dict.{lookup, remove, lookup-remove}
use mail_mcp.Base.Ids.{AccountId, Ulid}
use mail_mcp.Json.{Json}
use mail_mcp.Permissions.Storage.{Storage, select}
use mail_mcp.Accounts
use mail_mcp.Accounts.{Codec}
use mail_mcp.Accounts.Lifecycle.{delete-get}
use mail_mcp.Approvals.{Oneshot}
use mail_mcp.Oauth.{Chrono}
use mail_mcp.Secrets
use mail_mcp.Secrets.{Keyring, KeyKind}
use mail_mcp.Secrets.Entries.{IsDeletable, purge-get, purge-get_other}
use mail_mcp.Ipc.Messages.{account_removed}
use mail_mcp.Handler.State.{Daemon, id_param}
use mail_mcp.Handler.Signup.{remove_account}

module _ (J : Json) (C : Codec) (U : Ulid) (O : Oneshot) (K : Keyring) (T : Chrono)
    (S : Type 0) where
  -- The daemon after the deletion of the rows of `id`, which left the database `s`.
  abbrev forgotten : AccountId → Storage → Daemon J.Value C O K T S → Daemon J.Value C O K T S
  forgotten id s d = record d {
    storage = s;
    secrets = Secrets.purge K U id d.secrets;
    providers = remove id d.providers;
    sent = account_removed id ∷ d.sent;
  }

  remove_account-eq-ok :
      (params : J.Value) (id : AccountId) (d d' : Daemon J.Value C O K T S)
      → id_param J U params "account_id" ≡ ok id
      → remove_account J C U O K T S params d ≡ (ok (J.object []), d')
      → (Accounts.delete C U id d.storage ≡ (ok tt, (Accounts.delete C U id d.storage).1))
        × (d' ≡ forgotten id (Accounts.delete C U id d.storage).1 d)
  unfolding remove_account
  remove_account-eq-ok params id d d' named h = ground (arith, named)

  -- Nothing that the daemon keeps is known of the account `id`.
  pub record IsForgotten (id : AccountId) (d : Daemon J.Value C O K T S) : Type 0 where
    pub no_account : (Accounts.get C U id d.storage).0 ≡ ok none
    pub no_policies : select (U.to_string id) d.storage.permissions ≡ []
    pub no_secrets : (kind : KeyKind) → Secrets.get K U id kind d.secrets ≡ ok none
    pub no_provider : lookup id d.providers ≡ none

  -- What is known of the account `id` is the same in both states.
  pub record IsKept (id : AccountId) (d d' : Daemon J.Value C O K T S) : Type 0 where
    pub same_account : (Accounts.get C U id d'.storage).0 ≡ (Accounts.get C U id d.storage).0
    pub same_policies :
        select (U.to_string id) d'.storage.permissions
        ≡ select (U.to_string id) d.storage.permissions
    pub same_secrets :
        (kind : KeyKind) → Secrets.get K U id kind d'.secrets ≡ Secrets.get K U id kind d.secrets
    pub same_provider : lookup id d'.providers ≡ lookup id d.providers

  -- A successful `remove_account` leaves nothing of the account that it was given: no row, no
  -- policy, no secret and no provider. Every other account keeps its row, its policies, its secrets
  -- and its provider. One notification, of the removal, is sent. The keychain must be able to
  -- delete the account's entries: an error of it is ignored by the code.
  pub remove_account-IsForgotten :
      (params : J.Value) (id : AccountId) (d d' : Daemon J.Value C O K T S)
      → id_param J U params "account_id" ≡ ok id
      → remove_account J C U O K T S params d ≡ (ok (J.object []), d')
      → IsDeletable K U id
      → IsForgotten id d'
        × ((other : AccountId) → other ≢ id → IsKept other d d')
        × (d'.sent ≡ account_removed id ∷ d.sent)
  remove_account-IsForgotten params id d d' named h deletable =
      let (deleted, after) = remove_account-eq-ok params id d d' named h in
      let (no_account, no_policies, others) =
        delete-get C U id d.storage (Accounts.delete C U id d.storage).1 deleted in
      rw after (
        record {
          no_account = no_account;
          no_policies = no_policies;
          no_secrets = purge-get K U id d.secrets deletable;
          no_provider = ground (arith, lookup-remove id id d.providers);
        },
        λ other ne. record {
          same_account = (others other ne).0;
          same_policies = (others other ne).1;
          same_secrets = λ kind. purge-get_other K U id other d.secrets kind ne;
          same_provider = ground (arith, lookup-remove other id d.providers);
        },
        refl,
      )
