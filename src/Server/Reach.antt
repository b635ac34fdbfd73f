-- ===== src/Server/Reach.antt =====
-- What a request to `POST /mcp` can reach.
use mail_mcp.Base.{
  ◌≡◌, refl, sym, ap, subst, ◌↔◌, inl, inr, Bool, true, false, some, List, [], ◌∷◌, arith, find,
  IsIn, ◌==◌, ==_iff, Bool-cases, Option-cases,
}
use mail_mcp.Base.Ids.{Ulid}
use mail_mcp.Json.{Json}
use mail_mcp.Accounts.{Codec}
use mail_mcp.Approvals.{Oneshot}
use mail_mcp.Approvals.Consent.{IsOpen}
use mail_mcp.Enforce.{Wait}
use mail_mcp.Tools.{ToolSpec, tools}
use mail_mcp.Dispatch.Execute.{Serde}
use mail_mcp.Dispatch.Call.{CallState}
use mail_mcp.Dispatch.Safety.{Effect, dispatch-Effect}
use mail_mcp.Server.{
  McpState, Authorization, JsonRpcReq, ok_200, unauthorized_401, Rpc, check_auth, tool_name,
  tool_args, tools_call, handle_method, handle_post,
}
use mail_mcp.Server.Authorized.{IsBearer, check_auth_iff}

find-IsIn :
    {A : Type 0} (p : A → Bool) (xs : List A) (x : A)
    → find p xs ≡ some x
    → IsIn x xs × (p x ≡ true)
find-IsIn p [] x h = cc
find-IsIn p (y ∷ xs) x h = elim (Bool-cases (p y)) [
  | inl hit ↦ (inl (ground arith), ground arith)
  | inr miss ↦ let (later, e) = find-IsIn p xs x (ground arith) in (inr later, e)
]

module _ (J : Json) {C : Codec} (R : Rpc J C) (D : Serde J) (O : Oneshot) (U : Ulid) {S : Type 0}
    (wait : Wait J.Value) (state : McpState S) where
  -- A response has status 200 exactly when the request's header is `Bearer ` followed by the
  -- daemon's token; otherwise it has status 401 and the queue, the trust and the mailbox are as
  -- before, whatever the method.
  pub handle_post-IsBearer :
      (header : Authorization) (req : JsonRpcReq J.Value) (st : CallState J.Value O S)
      → (((handle_post J R D O U wait state header req st).0.0 ≡ ok_200)
          ↔ IsBearer state.bearer_token header)
        × (¬ IsBearer state.bearer_token header
            → ((handle_post J R D O U wait state header req st).0.0 ≡ unauthorized_401)
              × ((handle_post J R D O U wait state header req st).1 ≡ st))
  unfolding handle_post
  handle_post-IsBearer header req st =
      let auth = check_auth_iff header state.bearer_token in
      elim (Bool-cases (check_auth header state.bearer_token)) [
        | inl passes ↦
            ((λ _. auth.0 passes, λ _. rw passes), λ refused. absurd (refused (auth.0 passes)))
        | inr fails ↦ (
          (λ h. ground (arith, fails), λ h. ground (arith, fails, auth.1 h)),
          λ _. (rw fails, rw fails),
        )
      ]

  -- The ways in which a request may leave the mailbox.
  pub data Reached (header : Authorization) (req : JsonRpcReq J.Value) (st : CallState J.Value O S)
      (after : S) : Type 0 where
    left_alone : after ≡ st.remote → Reached header req st after
    called :
        (tool : ToolSpec J.Value)
        → IsBearer state.bearer_token header
        → req.method ≡ "tools/call"
        → IsIn tool (tools J)
        → tool.name ≡ tool_name J req.params
        → Effect J D O U wait state.ctx tool (tool_args J req.params) st after
        → Reached header req st after

  module _ (header : Authorization) (req : JsonRpcReq J.Value) (st : CallState J.Value O S)
      (v : IsOpen O st.world.queue) where
    tools_call-Reached :
        IsBearer state.bearer_token header
        → req.method ≡ "tools/call"
        → Reached header req st (tools_call J R D O U wait state req st).1.remote
    unfolding tools_call
    tools_call-Reached auth method = elim (Bool-cases (tool_name J req.params == "list_accounts")) [
      | inl listing ↦ left_alone (rw listing)
      | inr other ↦ elim (Option-cases (find (λ t. t.name == tool_name J req.params) (tools J))) [
        | inl missing ↦ left_alone (rw (other, missing))
        | inr (tool, found) ↦
            let (listed, named) = find-IsIn _ (tools J) tool found in
            rw (other, found)
              (called tool auth method listed ((==_iff tool.name (tool_name J req.params)).0 named)
                (dispatch-Effect J D O U wait state.ctx tool (tool_args J req.params) st v))
      ]
    ]

    handle_method-call :
        req.method ≡ "tools/call"
        → handle_method J R D O U wait state req st ≡ tools_call J R D O U wait state req st
    unfolding handle_method
    handle_method-call e =
        subst
          (λ m.
            handle_method J R D O U wait state (record req { method = m }) st
            ≡ tools_call J R D O U wait state (record req { method = m }) st)
          (sym e) refl

    handle_method-other :
        (req.method == "tools/call") ≡ false → (handle_method J R D O U wait state req st).1 ≡ st
    unfolding handle_method
    handle_method-other e = ground arith

    -- A request leaves the mailbox as it was, or it carries the daemon's token, its method is
    -- `tools/call`, it names a tool of the catalog, and the mailbox is as `dispatch` may leave it for
    -- that tool with its policies and approvals. The queue must have untouched channels for what is
    -- pending.
    pub handle_post-Reached :
        Reached header req st (handle_post J R D O U wait state header req st).1.remote
    unfolding handle_post
    handle_post-Reached = elim (Bool-cases (check_auth header state.bearer_token)) [
      | inr fails ↦ left_alone (rw fails)
      | inl passes ↦ elim (Bool-cases (req.method == "tools/call")) [
        | inr other ↦ left_alone (rw passes (ap (λ st'. st'.remote) (handle_method-other other)))
        | inl call ↦
            let method = (==_iff req.method "tools/call").0 call in
            rw (passes, handle_method-call method)
              (tools_call-Reached ((check_auth_iff header state.bearer_token).0 passes) method)
      ]
    ]
