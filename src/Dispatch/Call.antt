-- ===== src/Dispatch/Call.antt =====
-- dispatch.rs, `DispatchContext`, `ProviderRegistry` and `dispatch`.
--
-- `dispatch` reads the pause flag, the registry and the database once, before it may wait for the
-- user; they are the context. What it changes is the approval queue, the session trust and the
-- remote mailbox `S` that the providers work on.
use Prim.Native.String.{◌++◌}
use mail_mcp.Base.{
  Bool, [], ◌∷◌, Result, permission_denied, not_found, ok_or, unwrap_or, if◌then◌else◌, ◌==◌,
  nat_key,
}
use mail_mcp.Base.Dict.{Dict, lookup}
use mail_mcp.Base.State.{M, ◌>>=◌, pure, throw, lift}
use mail_mcp.Base.Ids.{AccountId, Ulid}
use mail_mcp.Json.{Json}
use mail_mcp.Permissions.Storage.{Storage}
use mail_mcp.Permissions.Table.{for_account}
use mail_mcp.Approvals.{ApprovalRequest, Oneshot}
use mail_mcp.Enforce.{EnforceOutcome, proceed, blocked, convert_to_draft, Wait, World, enforce}
use mail_mcp.Mail.Provider.{MailProvider}
use mail_mcp.Tools.{ToolSpec}
use mail_mcp.Dispatch.Args.{parse_account_id, str_arg}
use mail_mcp.Dispatch.Execute.{Serde, execute, convert_send_to_draft}

abbrev pub ProviderRegistry : Type 0 → Type 0
ProviderRegistry S = Dict AccountId (MailProvider S)

pub record DispatchContext (S : Type 0) : Type 0 where
  pub storage : Storage
  pub providers : ProviderRegistry S
  pub mcp_paused : Bool

pub record CallState (V : Type 0) (O : Oneshot) (S : Type 0) : Type 0 where
  pub world : World V O
  pub remote : S

module _ {V : Type 0} {O : Oneshot} {S : Type 0} where
  abbrev pub put_world : {A : Type 0} → S → Result A × World V O → Result A × CallState V O S
  put_world s (r, w) = (r, record { world = w; remote = s })

  abbrev pub put_remote : {A : Type 0} → World V O → Result A × S → Result A × CallState V O S
  put_remote w (r, s) = (r, record { world = w; remote = s })

  -- A step on the queue and the trust, and one on the mailbox.
  abbrev pub on_world : {A : Type 0} → M (World V O) A → M (CallState V O S) A
  on_world m st = put_world st.remote (m st.world)

  abbrev pub on_remote : {A : Type 0} → M S A → M (CallState V O S) A
  on_remote m st = put_remote st.world (m st.remote)

module _ (J : Json) where
  -- The answer to `send_draft` under draftify.
  unfoldable pub send_held : J.Value → J.Value
  send_held args = J.object (
      ("result", J.string "send_held")
      ∷ ("draft_id", J.string (unwrap_or (str_arg J args "draft_id") ""))
      ∷ (
        "note",
        J.string
            "Send was held per user policy. The draft remains in your drafts folder; please review and send from your mail client.",
      )
      ∷ [])

  -- The `ApprovalRequest` that `dispatch` builds.
  unfoldable pub approval_request : AccountId → ToolSpec J.Value → J.Value → ApprovalRequest J.Value
  approval_request account tool args = record {
    account = account;
    category = tool.category;
    summary = tool.name;
    details = args;
  }

module _ (J : Json) (D : Serde J) (O : Oneshot) (U : Ulid) {S : Type 0} (wait : Wait J.Value) where
  -- The match on the outcome in `dispatch`.
  unfoldable pub conclude :
      MailProvider S
      → ToolSpec J.Value
      → J.Value
      → EnforceOutcome
      → M (CallState J.Value O S) J.Value
  conclude mail tool args blocked =
      throw (permission_denied (tool.name ++ ": blocked by user policy"))
  conclude mail tool args convert_to_draft =
      if tool.name == "send_draft"
      then pure (send_held J args)
      else on_remote (convert_send_to_draft J D mail args)
  conclude mail tool args proceed = on_remote (execute J D mail tool.name args)

  -- `dispatch`
  unfoldable pub dispatch :
      DispatchContext S → ToolSpec J.Value → J.Value → M (CallState J.Value O S) J.Value
  dispatch ctx tool args =
      if ctx.mcp_paused
      then throw (permission_denied "MCP is paused — open mail-mcp Settings to resume.")
      else (do
        account_id ← lift (parse_account_id J U args)
        mail ← lift (
            ok_or (lookup account_id ctx.providers)
              (not_found ("account " ++ U.to_string account_id)))
        perms ← lift (for_account U account_id ctx.storage).0
        outcome ←
            on_world
              (enforce O U wait perms tool.category (approval_request J account_id tool args))
        conclude mail tool args outcome)
