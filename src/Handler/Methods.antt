-- ===== src/Handler/Methods.antt =====
-- ipc_handler.rs, `handle` and the methods on permissions, approvals, settings and the pause flag.
use Prim.Native.String.{◌++◌}
use mail_mcp.Base.{
  ℕ, ◌%◌, ◌^◌, String, [], map, length, Result, ok, err, provider, not_found, unwrap_or, map_err,
  if◌then◌else◌, ◌==◌,
}
use mail_mcp.Base.State.{M, ◌>>=◌, ◌>>◌, pure, throw, lift, gets, modify}
use mail_mcp.Base.Ids.{AccountId, Ulid}
use mail_mcp.Json.{Json}
use mail_mcp.Permissions.Category.{Category, read, modify as modify_category, trash, draft, send}
use mail_mcp.Permissions.Category
use mail_mcp.Permissions.Policy
use mail_mcp.Permissions.Policy.{Policy}
use mail_mcp.Permissions.Storage.{get_app_state, set_app_state}
use mail_mcp.Permissions.Table.{Permissions, for_account, policy_for}
use mail_mcp.Permissions.Table
use mail_mcp.Accounts
use mail_mcp.Accounts.{Codec, Account}
use mail_mcp.Approvals
use mail_mcp.Approvals.{Oneshot, ApprovalDecision, approve, reject, decide}
use mail_mcp.Oauth.{Chrono, OAuthTokens}
use mail_mcp.Oauth.Authorize.{AuthChallenge}
use mail_mcp.Secrets.{Keyring}
use mail_mcp.Mail.Provider.{MailProvider}
use mail_mcp.Ipc.Messages.{
  AccountListItem, ok_status, PermissionMap, McpEndpointInfo, mcp_paused_changed, Writers,
  list_item_value, permission_map_value, endpoint_value, status_value,
}
use mail_mcp.Handler.State.{
  Joined, Daemon, on_storage, on_approvals, send_notification, str_param, required, flag_param,
  id_param,
}
use mail_mcp.Handler.Signup.{add_oauth, cancel_oauth, complete_oauth, remove_account}

-- What a call learns from outside.
pub record Call (T : Chrono) : Type 0 where
  pub uptime_secs : ℕ
  pub now : ℕ
  pub new_id : AccountId
  pub challenge_id : String
  pub begun : Result AuthChallenge
  pub task : Joined T

-- The match on the decision in `approvals_decide`.
unfoldable pub decision_of : String → Result ApprovalDecision
decision_of s =
    if s == "approve"
    then ok approve
    else if s == "reject"
    then ok reject
    else err (provider ("bad decision: " ++ s))

unfoldable pub permission_map : Permissions → PermissionMap
permission_map perms = record {
  read = policy_for perms read;
  modify = policy_for perms modify_category;
  trash = policy_for perms trash;
  draft = policy_for perms draft;
  send = policy_for perms send;
}

-- The closure of "accounts.list".
unfoldable pub list_item : {C : Codec} → Account C → AccountListItem
list_item a = record {
  id = a.id;
  label = a.label;
  provider = Accounts.as_str a.provider;
  email = a.email;
  status = ok_status;
}

module _ (J : Json) (C : Codec) (U : Ulid) (O : Oneshot) (K : Keyring) (T : Chrono)
    (S : Type 0) where
  abbrev Handled : Type 0
  Handled = M (Daemon J.Value C O K T S) J.Value

  -- `permissions_get`
  unfoldable pub permissions_get : J.Value → Handled
  permissions_get params = do
    id ← lift (id_param J U params "account_id")
    perms ← on_storage (for_account U id)
    pure (permission_map_value J U (permission_map perms))

  -- `permissions_set`
  unfoldable pub permissions_set : J.Value → Handled
  permissions_set params = do
    id ← lift (id_param J U params "account_id")
    cat_str ← lift (required J params "category")
    pol_str ← lift (required J params "policy")
    cat ← lift (map_err (Category.from_str cat_str) provider)
    pol ← lift (map_err (Policy.from_str pol_str) provider)
    on_storage (Table.set U id cat pol)
    pure (J.object [])

  -- `approvals_decide`
  unfoldable pub approvals_decide : J.Value → Handled
  approvals_decide params = do
    id ← lift (id_param J U params "id")
    decision ← lift (decision_of (unwrap_or (str_param J params "decision") ""))
    on_approvals (decide O U id decision)
    pure (J.object [])

  -- The arm "status".
  unfoldable pub status : String → ℕ → Handled
  status version uptime_secs = do
    accounts ← on_storage (Accounts.list C U)
    paused ← gets (λ d. d.mcp_paused)
    complete ← on_storage (get_app_state "onboarding_complete")
    pure (
        status_value J U (record {
          version = version;
          uptime_secs = uptime_secs;
          account_count = length accounts % 2 ^ 32;
          mcp_paused = paused;
          onboarding_complete = unwrap_or complete "" == "true";
        }))

  -- The arm "accounts.list".
  unfoldable pub accounts_list : Handled
  accounts_list = do
    accounts ← on_storage (Accounts.list C U)
    pure (J.array (map (λ a. list_item_value J U (list_item a)) accounts))

  -- The arm "settings.set_onboarding_complete".
  unfoldable pub set_onboarding_complete : J.Value → Handled
  set_onboarding_complete params = do
    on_storage (
        set_app_state "onboarding_complete"
          (if flag_param J params "complete" then "true" else "false"))
    pure (J.object [])

  -- The arm "mcp.pause".
  unfoldable pub pause : J.Value → Handled
  pause params = do
    let paused = flag_param J params "paused"
    modify (λ d. record d { mcp_paused = paused })
    modify (send_notification (mcp_paused_changed paused))
    pure (J.object [])

  module _ (W : Writers J C) (empty_config : C.Value)
      (gmail : AccountId → OAuthTokens T → String → MailProvider S) (version : String)
      (mcp_endpoint : McpEndpointInfo) (call : Call T) where
    unfoldable pub approvals_list : Handled
    approvals_list d = (W.pending (Approvals.list O d.approvals), d)

    -- `handle`
    unfoldable pub handle : String → J.Value → Handled
    handle method params =
        if method == "status"
        then status version call.uptime_secs
        else if method == "accounts.list"
        then accounts_list
        else if method == "accounts.add_oauth"
        then add_oauth J C U O K T S call.challenge_id call.begun call.task params
        else if method == "accounts.complete_oauth"
        then complete_oauth J C U O K T S W empty_config gmail call.new_id call.now params
        else if method == "accounts.cancel_oauth"
        then cancel_oauth J C U O K T S params
        else if method == "accounts.remove"
        then remove_account J C U O K T S params
        else if method == "permissions.get"
        then permissions_get params
        else if method == "permissions.set"
        then permissions_set params
        else if method == "approvals.list"
        then approvals_list
        else if method == "approvals.decide"
        then approvals_decide params
        else if method == "settings.set_autostart"
        then pure (J.object [])
        else if method == "settings.set_onboarding_complete"
        then set_onboarding_complete params
        else if method == "mcp.endpoint"
        then pure (endpoint_value J U mcp_endpoint)
        else if method == "mcp.pause"
        then pause params
        else throw (not_found method)
