-- ===== src/Admin/Effects.antt =====
-- A command of the admin client, and the tool calls after it.
use Prim.Native.String.{◌++◌ as concat}
use mail_mcp.Base.{
  ◌≡◌, refl, Bool, String, List, [], ◌∷◌, ok, err, permission_denied, arith, Result-cases, inl, inr,
}
use mail_mcp.Base.Ids.{AccountId, Ulid}
use mail_mcp.Json.{Json}
use mail_mcp.Permissions.Table.{Permissions}
use mail_mcp.Permissions.Policy.{block}
use mail_mcp.Accounts.{Codec}
use mail_mcp.Approvals.{Oneshot}
use mail_mcp.Enforce.{Wait}
use mail_mcp.Oauth.{Chrono, OAuthTokens}
use mail_mcp.Secrets.{Keyring}
use mail_mcp.Mail.Provider.{MailProvider}
use mail_mcp.Tools.{ToolSpec}
use mail_mcp.Dispatch.Execute.{Serde}
use mail_mcp.Dispatch.Call.{CallState, dispatch}
use mail_mcp.Dispatch.Safety.{IsReady}
use mail_mcp.Ipc.Messages.{Writers, McpEndpointInfo}
use mail_mcp.Ipc.Server.{Wire}
use mail_mcp.Handler.State.{Daemon, context_of}
use mail_mcp.Handler.Methods.{Call, handle, permissions_set}
use mail_mcp.Handler.Policies.{IsSetting, permissions_set-dispatch}
use mail_mcp.Admin.Client.{Anyhow, done, Replies, verdict}
use mail_mcp.Admin.Exchange.{outcome}
use mail_mcp.Admin.Commands.{permissions, set, Output, calling, print_done, run_permissions, run}

module _ (J : Json) (C : Codec) (U : Ulid) (O : Oneshot) (K : Keyring) (T : Chrono) (S : Type 0)
    (W : Writers J C) (empty_config : C.Value)
    (gmail : AccountId → OAuthTokens T → String → MailProvider S) (version : String)
    (mcp_endpoint : McpEndpointInfo) (X : Wire J C) (R : Replies J.Value) (is_null : J.Value → Bool)
    (learned : Call T) where
  abbrev Daemons : Type 0
  Daemons = Daemon J.Value C O K T S

  -- A call of the client, by what it yields.
  unfoldable pub over_ipc : String → J.Value → Daemons → Anyhow J.Value × Daemons
  over_ipc method params d =
      let (r, d') =
        handle J C U O K T S W empty_config gmail version mcp_endpoint learned method params d in
      (outcome J C X R is_null r, d')

  abbrev set_params : (account_id category policy : String) → J.Value
  set_params account_id category policy = J.object (
      ("account_id", J.string account_id)
      ∷ ("category", J.string category)
      ∷ ("policy", J.string policy)
      ∷ [])

  handle-set :
      (params : J.Value) (d : Daemons)
      → handle J C U O K T S W empty_config gmail version mcp_endpoint learned "permissions.set"
          params d
        ≡ permissions_set J C U O K T S params d
  unfolding handle
  handle-set params d = refl

  run-set :
      (account_id category policy : String) (outputs : List (Output J.Value)) (d d' : Daemons)
      → run J over_ipc (permissions (set account_id category policy)) d ≡ ((done tt, outputs), d')
      → (v : J.Value) × (permissions_set J C U O K T S (set_params account_id category policy) d
          ≡ (ok v, d'))
  unfolding run run_permissions print_done calling over_ipc outcome verdict
  run-set account_id category policy outputs d d' h =
      let params = set_params account_id category policy in
      let same = handle-set params d in
      elim (Result-cases (permissions_set J C U O K T S params d).0) [
        | inl (v, fine) ↦ (v, ground (arith, same, fine, h))
        | inr (e, bad) ↦ absurd (ground (arith, same, bad, h))
      ]

  -- `mail-mcp-admin permissions set` with the policy `block`, once it has printed that it is done, has
  -- every tool call of the category refused that could be made on the account before, and neither the
  -- queue nor the trust nor the mailbox changes. The daemon must read the parameters as they were
  -- written.
  pub run-dispatch :
      (D : Serde J) (wait : Wait J.Value) (account_id category : String)
      (outputs : List (Output J.Value)) (id : AccountId) (d d' : Daemons) (tool : ToolSpec J.Value)
      (args : J.Value) (mail : MailProvider S) (perms : Permissions) (st : CallState J.Value O S)
      → IsSetting J C U O K T S (set_params account_id category "block") id tool.category block
      → run J over_ipc (permissions (set account_id category "block")) d ≡ ((done tt, outputs), d')
      → IsReady J U (context_of d) args id mail perms
      → dispatch J D O U wait (context_of d') tool args st
        ≡ (err (permission_denied (concat tool.name ": blocked by user policy")), st)
  run-dispatch D wait account_id category outputs id d d' tool args mail perms st p h ready =
      let (v, answered) = run-set account_id category "block" outputs d d' h in
      permissions_set-dispatch J C U O K T S D wait (set_params account_id category "block") id v d
        d' tool args mail perms st p answered ready
