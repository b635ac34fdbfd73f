-- ===== src/Dispatch/Draftify.antt =====
-- Sends under the draftify policy: the draft that is saved, and `send_draft`, which has none.
use mail_mcp.Base.{
  ◌≡◌, ap, ◌∙◌, ◌≢◌, none, map, Result, ok, err, Result-cases, arith, ◌==◌, ==_iff, parsed,
  Bool-cases, inl, inr,
}
use mail_mcp.Base.Ids.{AccountId, DraftId, Ulid}
use mail_mcp.Json.{Json}
use mail_mcp.Permissions.Category.{send, category_key}
use mail_mcp.Permissions.Policy.{draftify}
use mail_mcp.Permissions.Table.{Permissions, policy_for}
use mail_mcp.Approvals.{Oneshot}
use mail_mcp.Enforce.{EnforceOutcome, convert_to_draft, Wait, enforce, enforce_policy}
use mail_mcp.Mail.Types.{DraftInput}
use mail_mcp.Mail.Provider.{MailProvider}
use mail_mcp.Tools.{ToolSpec}
use mail_mcp.Dispatch.Args.{SendArgs, addrs, draft_of_send}
use mail_mcp.Dispatch.Execute.{Serde, draft_created, convert_send_to_draft}
use mail_mcp.Dispatch.Call.{
  DispatchContext, CallState, put_remote, approval_request, send_held, conclude, dispatch,
}
use mail_mcp.Dispatch.Safety.{IsReady, dispatch-IsReady}

module _ (J : Json) (D : Serde J) (O : Oneshot) (U : Ulid) {S : Type 0} (wait : Wait J.Value) where
  module _ (ctx : DispatchContext S) (tool : ToolSpec J.Value) (args : J.Value)
      (account : AccountId) (mail : MailProvider S) (perms : Permissions)
      (st : CallState J.Value O S) (ready : IsReady J U ctx args account mail perms) where
    dispatch-quiet :
        (outcome : EnforceOutcome)
        → enforce O U wait perms tool.category (approval_request J account tool args) st.world
          ≡ (ok outcome, st.world)
        → dispatch J D O U wait ctx tool args st ≡ conclude J D O U wait mail tool args outcome st
    dispatch-quiet outcome e =
        rw (dispatch-IsReady J D O U wait ctx tool args account mail perms st ready, e)

    enforce-draftify :
        policy_for perms tool.category ≡ draftify
        → tool.category ≡ send
        → enforce O U wait perms tool.category (approval_request J account tool args) st.world
          ≡ (ok convert_to_draft, st.world)
    unfolding enforce enforce_policy
    enforce-draftify p c = ground arith

    -- What a send under draftify ends with: the answer names the draft that was made.
    abbrev pub answered_with_draft : Result DraftId × S → Result J.Value × S
    answered_with_draft (err e, after) = (err e, after)
    answered_with_draft (ok id, after) = (ok (draft_created J id), after)

    -- The draft of a message, field by field.
    abbrev pub draft_of : SendArgs → DraftInput
    draft_of s = record {
      to = map (λ a. record { name = none; email = a }) s.to;
      cc = map (λ a. record { name = none; email = a }) s.cc;
      bcc = map (λ a. record { name = none; email = a }) s.bcc;
      subject = s.subject;
      body_text = s.body_text;
      body_html = s.body_html;
      in_reply_to = s.in_reply_to;
      thread_id = s.thread_id;
    }

    converts :
        (s : SendArgs)
        → D.send_args args ≡ parsed s
        → convert_send_to_draft J D mail args st.remote
          ≡ answered_with_draft (mail.create_draft (draft_of s) st.remote)
    unfolding convert_send_to_draft draft_of_send addrs
    converts s a = elim (Result-cases (mail.create_draft (draft_of s) st.remote).0) [
      | inl (id, made) ↦ ground (arith, a, made)
      | inr (e, failed) ↦ ground (arith, a, failed)
    ]

    -- Under draftify a send that is ready and whose arguments can be read becomes exactly one
    -- `create_draft`, with all three lists of recipients, the subject, both bodies, the message that
    -- it answers and the thread as the arguments have them: whether that call succeeds or fails, the
    -- answer and the mailbox are those of the call, and neither the queue nor the trust changes.
    pub dispatch-draftify :
        (s : SendArgs)
        → policy_for perms tool.category ≡ draftify
        → tool.category ≡ send
        → tool.name ≢ "send_draft"
        → D.send_args args ≡ parsed s
        → dispatch J D O U wait ctx tool args st
          ≡ put_remote st.world (answered_with_draft (mail.create_draft (draft_of s) st.remote))
    unfolding conclude
    dispatch-draftify s p c ne a =
        dispatch-quiet convert_to_draft (enforce-draftify p c)
        ∙ elim (Bool-cases (tool.name == "send_draft")) [
          | inl held ↦ absurd (ne ((==_iff tool.name "send_draft").0 held))
          | inr other ↦ rw other (ap (put_remote st.world) (converts s a))
        ]

    -- Under draftify `send_draft` is held: no provider is called and nothing changes.
    pub dispatch-held :
        policy_for perms tool.category ≡ draftify
        → tool.category ≡ send
        → tool.name ≡ "send_draft"
        → dispatch J D O U wait ctx tool args st ≡ (ok (send_held J args), st)
    unfolding conclude
    dispatch-held p c e =
        dispatch-quiet convert_to_draft (enforce-draftify p c)
        ∙ ground (arith, ==_iff tool.name "send_draft")
