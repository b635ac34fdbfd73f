-- ===== src/Handler/Runs.antt =====
-- A daemon that serves one call after another.
use mail_mcp.Base.{
  ◌≡◌, refl, ◌∙◌, ◌≢◌, true, String, List, [], ◌∷◌, err, permission_denied, All, string_key, arith,
  nat_key,
}
use mail_mcp.Base.Ids.{AccountId, Ulid}
use mail_mcp.Json.{Json}
use mail_mcp.Permissions.Storage.{get_app_state, set_app_state}
use mail_mcp.Accounts
use mail_mcp.Accounts.{Codec, NewAccount, insert_account, delete_rows}
use mail_mcp.Approvals.{Oneshot}
use mail_mcp.Oauth.{Chrono, OAuthTokens}
use mail_mcp.Secrets.{Keyring}
use mail_mcp.Mail.Provider.{MailProvider}
use mail_mcp.Ipc.Messages.{McpEndpointInfo, Writers}
use mail_mcp.Handler.State.{context_of, Daemon, flag_param}
use mail_mcp.Enforce.{Wait}
use mail_mcp.Tools.{ToolSpec}
use mail_mcp.Dispatch.Execute.{Serde}
use mail_mcp.Dispatch.Call.{CallState, dispatch}
use mail_mcp.Handler.Signup.{add_oauth, cancel_oauth}
use mail_mcp.Handler.Backing.{
  IsBacked, SameAccounts, SameAccounts-IsBacked, permissions_get-SameAccounts,
  permissions_set-SameAccounts, complete_oauth-IsBacked, remove_account-IsBacked,
}
use mail_mcp.Handler.Methods.{
  Call, status, accounts_list, permissions_get, permissions_set, approvals_decide,
  set_onboarding_complete, pause, handle,
}
use mail_mcp.Handler.Invariants.{handle-Keeps, handle-mcp_paused}

module _ (J : Json) (C : Codec) (U : Ulid) (O : Oneshot) (K : Keyring) (T : Chrono) (S : Type 0)
    (W : Writers J C) (empty_config : C.Value)
    (gmail : AccountId → OAuthTokens T → String → MailProvider S) (version : String)
    (mcp_endpoint : McpEndpointInfo) where
  abbrev pub run : Call T → String → J.Value → Daemon J.Value C O K T S → Daemon J.Value C O K T S
  run call method params d =
      (handle J C U O K T S W empty_config gmail version mcp_endpoint call method params d).1

  pub handle-IsBacked :
      (call : Call T) (method : String) (params : J.Value) (d : Daemon J.Value C O K T S)
      → IsBacked J C U O K T S W empty_config gmail version mcp_endpoint d
      → IsBacked J C U O K T S W empty_config gmail version mcp_endpoint (run call method params d)
  unfolding status accounts_list add_oauth cancel_oauth approvals_decide set_onboarding_complete
      pause Accounts.list get_app_state set_app_state
  handle-IsBacked call method params d backed =
      let same =
        λ (d' : Daemon J.Value C O K T S)
            (e : SameAccounts J C U O K T S W empty_config gmail version mcp_endpoint d d').
          SameAccounts-IsBacked J C U O K T S W empty_config gmail version mcp_endpoint d d' e
            backed in
      (handle-Keeps J C U O K T S W empty_config gmail version mcp_endpoint
        (IsBacked J C U O K T S W empty_config gmail version mcp_endpoint) call method params d
        backed (same (status J C U O K T S version call.uptime_secs d).1 (ground arith))
        (same (accounts_list J C U O K T S d).1 (ground arith))
        (same (add_oauth J C U O K T S call.challenge_id call.begun call.task params d).1
          (ground arith))
        (complete_oauth-IsBacked J C U O K T S W empty_config gmail version mcp_endpoint params
          call.new_id call.now d backed)
        (same (cancel_oauth J C U O K T S params d).1 (ground arith))
        (remove_account-IsBacked J C U O K T S W empty_config gmail version mcp_endpoint params d
          backed)
        (same (permissions_get J C U O K T S params d).1 (
          permissions_get-SameAccounts J C U O K T S W empty_config gmail version mcp_endpoint
            params d))
        (same (permissions_set J C U O K T S params d).1 (
          permissions_set-SameAccounts J C U O K T S W empty_config gmail version mcp_endpoint
            params d))
        (same (approvals_decide J C U O K T S params d).1 (ground arith))
        (same (set_onboarding_complete J C U O K T S params d).1 (ground arith))
        (λ e. same (pause J C U O K T S params d).1 (ground arith))).holds

  -- A call of a method, with what it learns from outside.
  pub record Request : Type 0 where
    pub call : Call T
    pub method : String
    pub params : J.Value

  unfoldable pub serve : List Request → Daemon J.Value C O K T S → Daemon J.Value C O K T S
  serve [] d = d
  serve (r ∷ rs) d = serve rs (run r.call r.method r.params d)

  -- Whatever methods are called one after another, with whatever parameters and outcomes, the
  -- registry never has a provider for an account that the database does not have, if it had none at
  -- the start.
  pub serve-IsBacked :
      (rs : List Request) (d : Daemon J.Value C O K T S)
      → IsBacked J C U O K T S W empty_config gmail version mcp_endpoint d
      → IsBacked J C U O K T S W empty_config gmail version mcp_endpoint (serve rs d)
  unfolding serve
  serve-IsBacked [] d backed = backed
  serve-IsBacked (r ∷ rs) d backed =
      serve-IsBacked rs (run r.call r.method r.params d)
        (handle-IsBacked r.call r.method r.params d backed)

  serve-mcp_paused :
      (rs : List Request) (d : Daemon J.Value C O K T S)
      → All (λ r. r.method ≢ "mcp.pause") rs
      → (serve rs d).mcp_paused ≡ d.mcp_paused
  unfolding serve
  serve-mcp_paused [] d others = refl
  serve-mcp_paused (r ∷ rs) d others =
      serve-mcp_paused rs (run r.call r.method r.params d) others.1
      ∙ handle-mcp_paused J C U O K T S W empty_config gmail version mcp_endpoint r.call r.method
          r.params d others.0

  -- Once `mcp.pause` was called with a true flag, every tool call is refused, and neither the queue
  -- nor the trust nor the mailbox changes, whatever methods are called in between, until the next
  -- `mcp.pause`.
  pub pause-dispatch :
      (D : Serde J) (wait : Wait J.Value) (call : Call T) (params : J.Value) (rs : List Request)
      (d : Daemon J.Value C O K T S) (tool : ToolSpec J.Value) (args : J.Value)
      (st : CallState J.Value O S)
      → flag_param J params "paused" ≡ true
      → All (λ r. r.method ≢ "mcp.pause") rs
      → dispatch J D O U wait (context_of (serve rs (run call "mcp.pause" params d))) tool args st
        ≡ (err (permission_denied "MCP is paused — open mail-mcp Settings to resume."), st)
  unfolding dispatch context_of handle pause
  pause-dispatch D wait call params rs d tool args st asked others =
      let paused : (serve rs (run call "mcp.pause" params d)).mcp_paused ≡ true =
        serve-mcp_paused rs (run call "mcp.pause" params d) others ∙ asked in
      rw paused refl
