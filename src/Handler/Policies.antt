-- ===== src/Handler/Policies.antt =====
-- What `permissions_set` means for the tool calls after it.
use Prim.Native.String.{◌++◌}
use mail_mcp.Base.{◌≡◌, refl, ◌∙◌, String, ok, err, parsed, permission_denied, arith, nat_key}
use mail_mcp.Base.Ids.{AccountId, Ulid}
use mail_mcp.Json.{Json}
use mail_mcp.Permissions.Category.{Category, category_key}
use mail_mcp.Permissions.Category
use mail_mcp.Permissions.Policy.{Policy, block}
use mail_mcp.Permissions.Policy
use mail_mcp.Permissions.Table.{Permissions, policy_for}
use mail_mcp.Permissions.Table
use mail_mcp.Permissions.Laws.{Overrides, set-for_account}
use mail_mcp.Accounts.{Codec}
use mail_mcp.Approvals.{Oneshot}
use mail_mcp.Enforce.{Wait, enforce, enforce_policy}
use mail_mcp.Oauth.{Chrono}
use mail_mcp.Secrets.{Keyring}
use mail_mcp.Mail.Provider.{MailProvider}
use mail_mcp.Tools.{ToolSpec}
use mail_mcp.Dispatch.Execute.{Serde}
use mail_mcp.Dispatch.Call.{CallState, conclude, dispatch}
use mail_mcp.Dispatch.Safety.{IsReady, dispatch-IsReady}
use mail_mcp.Handler.State.{Daemon, context_of, required, id_param}
use mail_mcp.Handler.Methods.{permissions_set}

module _ (J : Json) (C : Codec) (U : Ulid) (O : Oneshot) (K : Keyring) (T : Chrono)
    (S : Type 0) where
  -- The parameters name an account, a category and a policy.
  pub record IsSetting (params : J.Value) (id : AccountId) (cat : Category) (pol : Policy)
      : Type 0 where
    pub category : String
    pub policy : String
    pub account : id_param J U params "account_id" ≡ ok id
    pub has_category : required J params "category" ≡ ok category
    pub has_policy : required J params "policy" ≡ ok policy
    pub reads_category : Category.from_str category ≡ parsed cat
    pub reads_policy : Policy.from_str policy ≡ parsed pol

  permissions_set-eq-ok :
      (params : J.Value) (id : AccountId) (cat : Category) (pol : Policy) (v : J.Value)
      (d d' : Daemon J.Value C O K T S)
      → IsSetting params id cat pol
      → permissions_set J C U O K T S params d ≡ (ok v, d')
      → (Table.set U id cat pol d.storage ≡ (ok tt, (Table.set U id cat pol d.storage).1))
        × (d' ≡ record d { storage = (Table.set U id cat pol d.storage).1 })
  unfolding permissions_set
  permissions_set-eq-ok params id cat pol v d d' p h =
      ground (arith, p.account, p.has_category, p.has_policy, p.reads_category, p.reads_policy)

  -- After a successful `permissions_set` every call that could be made can still be made, under the
  -- policies of before except for the account and the category that were set.
  pub permissions_set-IsReady :
      (params : J.Value) (id : AccountId) (cat : Category) (pol : Policy) (v : J.Value)
      (d d' : Daemon J.Value C O K T S) (args : J.Value) (account : AccountId)
      (mail : MailProvider S) (perms : Permissions)
      → IsSetting params id cat pol
      → permissions_set J C U O K T S params d ≡ (ok v, d')
      → IsReady J U (context_of d) args account mail perms
      → (after : Permissions) × IsReady J U (context_of d') args account mail after
        × Overrides U id account cat pol perms after
  unfolding context_of
  permissions_set-IsReady params id cat pol v d d' args account mail perms p h ready =
      let (done, at) = permissions_set-eq-ok params id cat pol v d d' p h in
      let (after, readable, over) =
        set-for_account U id account cat pol d.storage (Table.set U id cat pol d.storage).1 perms
          done ready.readable in
      rw at (
        after,
        record {
          unpaused = ready.unpaused;
          named = ready.named;
          registered = ready.registered;
          readable = readable;
        },
        over,
      )

  module _ (D : Serde J) (wait : Wait J.Value) where
    dispatch-block :
        (d : Daemon J.Value C O K T S) (tool : ToolSpec J.Value) (args : J.Value)
        (account : AccountId) (mail : MailProvider S) (perms : Permissions)
        (st : CallState J.Value O S)
        → IsReady J U (context_of d) args account mail perms
        → policy_for perms tool.category ≡ block
        → dispatch J D O U wait (context_of d) tool args st
          ≡ (err (permission_denied (tool.name ++ ": blocked by user policy")), st)
    unfolding enforce enforce_policy conclude
    dispatch-block d tool args account mail perms st ready blocks =
        dispatch-IsReady J D O U wait (context_of d) tool args account mail perms st ready
        ∙ rw blocks refl

    -- After a successful `permissions_set` of `block` for an account and a category, every tool
    -- call of that category on that account that could be made before is refused, and neither the
    -- queue nor the trust nor the mailbox changes.
    pub permissions_set-dispatch :
        (params : J.Value) (id : AccountId) (v : J.Value) (d d' : Daemon J.Value C O K T S)
        (tool : ToolSpec J.Value) (args : J.Value) (mail : MailProvider S) (perms : Permissions)
        (st : CallState J.Value O S)
        → IsSetting params id tool.category block
        → permissions_set J C U O K T S params d ≡ (ok v, d')
        → IsReady J U (context_of d) args id mail perms
        → dispatch J D O U wait (context_of d') tool args st
          ≡ (err (permission_denied (tool.name ++ ": blocked by user policy")), st)
    permissions_set-dispatch params id v d d' tool args mail perms st p h ready =
        let (after, ready', over) =
          permissions_set-IsReady params id tool.category block v d d' args id mail perms p h
            ready in
        dispatch-block d' tool args id mail after st ready' (over tool.category ∙ ground arith)
