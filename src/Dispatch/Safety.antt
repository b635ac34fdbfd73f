-- ===== src/Dispatch/Safety.antt =====
-- What a tool call may do to the mailbox.
use Prim.Native.String.{◌++◌}
use mail_mcp.Base.{
  ◌≡◌, refl, ap, ◌≢◌, ◌⊎◌, inl, inr, false, some, Result, Error, ok, err, ◌==◌, ==_iff, nat_key,
  permission_denied, not_found, Result-cases, Bool-cases, Option-cases,
}
use mail_mcp.Base.Dict.{lookup}
use mail_mcp.Base.State.{bind_outcome}
use mail_mcp.Base.Ids.{AccountId, Ulid}
use mail_mcp.Json.{Json}
use mail_mcp.Permissions.Category.{send}
use mail_mcp.Permissions.Policy.{draftify}
use mail_mcp.Permissions.Table.{Permissions, policy_for, for_account}
use mail_mcp.Approvals.{Oneshot}
use mail_mcp.Approvals.Consent.{IsOpen}
use mail_mcp.Enforce.{EnforceOutcome, proceed, blocked, convert_to_draft, Wait, World, enforce}
use mail_mcp.Enforce.Safety.{MayProceed, enforce-MayProceed, enforce-convert_iff}
use mail_mcp.Mail.Provider.{MailProvider}
use mail_mcp.Tools.{ToolSpec}
use mail_mcp.Dispatch.Args.{parse_account_id}
use mail_mcp.Dispatch.Execute.{Serde, execute, convert_send_to_draft}
use mail_mcp.Dispatch.Call.{
  DispatchContext, CallState, put_world, approval_request, conclude, dispatch,
}

module _ (J : Json) (U : Ulid) {S : Type 0} where
  -- What a call needs before any policy is looked at.
  pub record IsReady (ctx : DispatchContext S) (args : J.Value) (account : AccountId)
      (mail : MailProvider S) (perms : Permissions) : Type 0 where
    pub unpaused : ctx.mcp_paused ≡ false
    pub named : parse_account_id J U args ≡ ok account
    pub registered : lookup account ctx.providers ≡ some mail
    pub readable : (for_account U account ctx.storage).0 ≡ ok perms

module _ (J : Json) (D : Serde J) (O : Oneshot) (U : Ulid) {S : Type 0} (wait : Wait J.Value) where
  pub dispatch-IsReady :
      (ctx : DispatchContext S) (tool : ToolSpec J.Value) (args : J.Value) (account : AccountId)
      (mail : MailProvider S) (perms : Permissions) (st : CallState J.Value O S)
      → IsReady J U ctx args account mail perms
      → dispatch J D O U wait ctx tool args st
        ≡ bind_outcome
            (put_world st.remote (
              enforce O U wait perms tool.category (approval_request J account tool args) st.world))
            (conclude J D O U wait mail tool args)
  unfolding dispatch
  dispatch-IsReady ctx tool args account mail perms st r =
      rw (r.unpaused, r.named, r.registered, r.readable)

  abbrev IsRefused : Result J.Value × CallState J.Value O S → CallState J.Value O S → Type 0
  IsRefused r st = (e : Error) × (r ≡ (err e, st))

  -- A call that is not ready is refused before the user is asked and before the mailbox is touched:
  -- either the daemon is not paused, the arguments name an account, the account has a provider and
  -- its policies can be read, or the call ends in an error and leaves the queue, the trust and the
  -- mailbox as they were.
  pub dispatch-IsReady_or_IsRefused :
      (ctx : DispatchContext S) (tool : ToolSpec J.Value) (args : J.Value)
      (st : CallState J.Value O S)
      → ((account : AccountId) × (mail : MailProvider S) × (perms : Permissions) × IsReady J U ctx
            args account mail perms)
        ⊎ IsRefused (dispatch J D O U wait ctx tool args st) st
  unfolding dispatch
  dispatch-IsReady_or_IsRefused ctx tool args st = elim (Bool-cases ctx.mcp_paused) [
    | inl paused ↦
        inr (permission_denied "MCP is paused — open mail-mcp Settings to resume.", rw paused)
    | inr unpaused ↦ elim (Result-cases (parse_account_id J U args)) [
      | inr (e, bad) ↦ inr (e, rw (unpaused, bad))
      | inl (account, named) ↦ elim (Option-cases (lookup account ctx.providers)) [
        | inl missing ↦
            inr (not_found ("account " ++ U.to_string account), rw (unpaused, named, missing))
        | inr (mail, registered) ↦ elim (Result-cases (for_account U account ctx.storage).0) [
          | inr (e, unread) ↦ inr (e, rw (unpaused, named, registered, unread))
          | inl (perms, readable) ↦ inl (
            account,
            mail,
            perms,
            record {
              unpaused = unpaused;
              named = named;
              registered = registered;
              readable = readable;
            },
          )
        ]
      ]
    ]
  ]

  -- The ways in which a call may leave the mailbox.
  pub data Effect (ctx : DispatchContext S) (tool : ToolSpec J.Value) (args : J.Value)
      (st : CallState J.Value O S) (after : S) : Type 0 where
    untouched : after ≡ st.remote → Effect ctx tool args st after
    executed :
        (account : AccountId) (mail : MailProvider S) (perms : Permissions)
        → IsReady J U ctx args account mail perms
        → MayProceed wait
            (policy_for perms tool.category)
            tool.category
            (approval_request J account tool args)
            st.world.trust
        → after ≡ (execute J D mail tool.name args st.remote).1
        → Effect ctx tool args st after
    drafted :
        (account : AccountId) (mail : MailProvider S) (perms : Permissions)
        → IsReady J U ctx args account mail perms
        → policy_for perms tool.category ≡ draftify
        → tool.category ≡ send
        → tool.name ≢ "send_draft"
        → after ≡ (convert_send_to_draft J D mail args st.remote).1
        → Effect ctx tool args st after

  module _ (ctx : DispatchContext S) (tool : ToolSpec J.Value) (args : J.Value)
      (account : AccountId) (mail : MailProvider S) (perms : Permissions)
      (st : CallState J.Value O S) (ready : IsReady J U ctx args account mail perms) where
    conclude-Effect :
        (r : Result EnforceOutcome) (w : World J.Value O)
        → (r ≡ ok proceed
            → MayProceed wait
                (policy_for perms tool.category)
                tool.category
                (approval_request J account tool args)
                st.world.trust)
        → (r ≡ ok convert_to_draft
            → (policy_for perms tool.category ≡ draftify) × (tool.category ≡ send))
        → Effect ctx tool args st
            (bind_outcome
              (put_world st.remote (r, w))
              (conclude J D O U wait mail tool args)).1.remote
    unfolding conclude
    conclude-Effect (err e) w may drafts = untouched refl
    conclude-Effect (ok blocked) w may drafts = untouched refl
    conclude-Effect (ok proceed) w may drafts = executed account mail perms ready (may refl) refl
    conclude-Effect (ok convert_to_draft) w may drafts =
        let (policy, category) = drafts refl in
        elim (Bool-cases (tool.name == "send_draft")) [
          | inl held ↦ untouched (rw held)
          | inr other ↦
              drafted account mail perms ready policy category
                (λ e. cc (other, (==_iff tool.name "send_draft").1 e)) (rw other)
        ]

    IsReady-Effect :
        IsOpen O st.world.queue
        → Effect ctx tool args st (dispatch J D O U wait ctx tool args st).1.remote
    IsReady-Effect v =
        let request = approval_request J account tool args in
        let r = enforce O U wait perms tool.category request st.world in
        rw (dispatch-IsReady ctx tool args account mail perms st ready) (
          conclude-Effect r.0 r.1
            (enforce-MayProceed O U wait perms tool.category request st.world v)
            (enforce-convert_iff O U wait perms tool.category request st.world).0)

  -- A tool call leaves the mailbox as it was, or runs the tool on the provider of the account that
  -- its arguments name after what that account's policy for the tool's category demands (the
  -- policy itself, the session's trust, or the user's approval in time), or, under draftify for a
  -- send other than `send_draft`, saves a draft in its place. The queue must have untouched
  -- channels for what is pending.
  pub dispatch-Effect :
      (ctx : DispatchContext S) (tool : ToolSpec J.Value) (args : J.Value)
      (st : CallState J.Value O S)
      → IsOpen O st.world.queue
      → Effect ctx tool args st (dispatch J D O U wait ctx tool args st).1.remote
  dispatch-Effect ctx tool args st v = elim (dispatch-IsReady_or_IsRefused ctx tool args st) [
    | inl (account, mail, perms, ready) ↦ IsReady-Effect ctx tool args account mail perms st ready v
    | inr (e, refused) ↦ untouched (ap (λ r. r.1.remote) refused)
  ]
