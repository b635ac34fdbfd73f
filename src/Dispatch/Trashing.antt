-- ===== src/Dispatch/Trashing.antt =====
-- The tool `move_to` of dispatch.rs on a Gmail account, down to the labels of the messages.
use mail_mcp.Base.{
  ◌≡◌, sym, Option, unwrap_or, ap, ◌∙◌, Bool, true, false, String, some, any, if◌then◌else◌, ok,
  arith, ◌==◌,
}
use mail_mcp.Base.State.{bind_outcome, bind_outcome-eq-ok}
use mail_mcp.Base.Ids.{AccountId, MessageId, Ulid}
use mail_mcp.Json.{Json}
use mail_mcp.Permissions.Category.{modify, category_key}
use mail_mcp.Permissions.Policy.{allow}
use mail_mcp.Permissions.Table.{Permissions, policy_for}
use mail_mcp.Approvals.{Oneshot}
use mail_mcp.Enforce.{proceed, Wait, enforce, enforce_policy}
use mail_mcp.Mail.Client.{RestClient}
use mail_mcp.Gmail.Compose.{MessageBuilder}
use mail_mcp.Gmail.Triage
use mail_mcp.Gmail.Triage.Edits.{Edits, move_to-has}
use mail_mcp.Gmail.Provider.{Reading, with_base}
use mail_mcp.Tools.{move_to_tool}
use mail_mcp.Dispatch.Args.{str_arg, message_ids}
use mail_mcp.Dispatch.Execute.{Serde, execute, execute_move_to}
use mail_mcp.Dispatch.Call.{
  DispatchContext, CallState, put_remote, approval_request, conclude, dispatch, put_world,
}
use mail_mcp.Dispatch.Safety.{IsReady, dispatch-IsReady}

module _ (J : Json) (D : Serde J) (O : Oneshot) (U : Ulid) (B : MessageBuilder) (R : Reading J B)
    {S : Type 0} (client : RestClient J.Value S) (base user_email : String) (wait : Wait J.Value)
    (ctx : DispatchContext S) (args : J.Value) (account : AccountId) (perms : Permissions)
    (st : CallState J.Value O S) where
  enforce-allow :
      policy_for perms modify ≡ allow
      → enforce O U wait perms modify (approval_request J account (move_to_tool J) args) st.world
        ≡ (ok proceed, st.world)
  unfolding enforce enforce_policy
  enforce-allow p = ground arith

  moving :
      {v : J.Value} {after : S}
      → str_arg J args "folder_id" ≡ some "TRASH"
      → execute J D (with_base J B R client base user_email) "move_to" args st.remote
        ≡ (ok v, after)
      → Triage.move_to client R.modify base (message_ids J args) "TRASH" st.remote ≡ (ok tt, after)
  unfolding execute execute_move_to with_base
  moving f h =
      let ids = message_ids J args in
      let to =
        λ (x : Option String). Triage.move_to client R.modify base ids (unwrap_or x "") st.remote in
      let (_, t, moved, ended) = bind_outcome-eq-ok (to (str_arg J args "folder_id")) _ h in
      ap to (sym f) ∙ (moved ∙ ap (λ q. (ok tt, q.1)) ended)

  -- The policy for trash does not cover `move_to`: where modifying is allowed, a call of it that is
  -- ready, names the folder "TRASH" and succeeds on a Gmail account leaves each message that it names
  -- in the trash and out of the inbox, and asks nobody, whatever the policy for trash says. The server
  -- must do what the documentation of `messages.modify` says.
  pub dispatch-trashes :
      (has : MessageId → String → S → Bool) (v : J.Value) (st' : CallState J.Value O S)
      → Edits client R.modify base has
      → IsReady J U ctx args account (with_base J B R client base user_email) perms
      → policy_for perms modify ≡ allow
      → str_arg J args "folder_id" ≡ some "TRASH"
      → dispatch J D O U wait ctx (move_to_tool J) args st ≡ (ok v, st')
      → (st'.world ≡ st.world)
        × ((m : MessageId)
            → any (λ id. m == id) (message_ids J args) ≡ true
            → (has m "TRASH" st'.remote ≡ true) × (has m "INBOX" st'.remote ≡ false))
  unfolding conclude
  dispatch-trashes has v st' edits ready p f h =
      let mail = with_base J B R client base user_email in
      let ran : put_remote st.world (execute J D mail "move_to" args st.remote) ≡ (ok v, st') =
        sym (
          dispatch-IsReady J D O U wait ctx (move_to_tool J) args account mail perms st ready
          ∙ ap
              (λ r.
                bind_outcome (put_world st.remote r)
                  (conclude J D O U wait mail (move_to_tool J) args))
              (enforce-allow p))
        ∙ h in
      let moved = moving f (ap (λ q. (q.0, q.1.remote)) ran) in
      let labels =
        move_to-has client R.modify base has (message_ids J args) "TRASH" st.remote st'.remote edits
          moved in
      (
        ap (λ q. q.1.world) (sym ran),
        λ m named. (
          labels m "TRASH" ∙ ap (λ b. if b then true else has m "TRASH" st.remote) named,
          labels m "INBOX" ∙ ap (λ b. if b then false else has m "INBOX" st.remote) named,
        ),
      )
