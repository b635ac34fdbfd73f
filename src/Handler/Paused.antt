-- ===== src/Handler/Paused.antt =====
-- The MCP server while the daemon is paused.
use mail_mcp.Base.{
  ◌≡◌, ◌≢◌, refl, ap, ◌∙◌, true, String, some, List, [], ◌∷◌, err, permission_denied, display, All,
  arith, find, ◌==◌, ==_iff, Bool-cases, Option-cases, inl, inr,
}
use mail_mcp.Base.Ids.{AccountId, Ulid}
use mail_mcp.Json.{Json}
use mail_mcp.Accounts.{Codec}
use mail_mcp.Approvals.{Oneshot}
use mail_mcp.Oauth.{Chrono, OAuthTokens}
use mail_mcp.Secrets.{Keyring}
use mail_mcp.Mail.Provider.{MailProvider}
use mail_mcp.Ipc.Messages.{McpEndpointInfo, Writers}
use mail_mcp.Enforce.{Wait}
use mail_mcp.Tools.{ToolSpec, tools}
use mail_mcp.Dispatch.Execute.{Serde}
use mail_mcp.Dispatch.Call.{CallState, dispatch}
use mail_mcp.Server.{
  McpState, Authorization, JsonRpcReq, ok_200, Rpc, tool_name, tool_args, rpc_err, respond,
  tools_call, handle_method, handle_post,
}
use mail_mcp.Server.Authorized.{IsBearer, check_auth_iff}
use mail_mcp.Handler.State.{context_of, Daemon, flag_param}
use mail_mcp.Handler.Methods.{Call}
use mail_mcp.Handler.Runs.{Request, run, serve, pause-dispatch}

module _ (J : Json) {C : Codec} (R : Rpc J C) (D : Serde J) (O : Oneshot) (U : Ulid) {S : Type 0}
    (wait : Wait J.Value) (state : McpState S) (st : CallState J.Value O S) where
  abbrev pub paused_text : String
  paused_text = "permission denied: MCP is paused — open mail-mcp Settings to resume."

  -- The response to a refused call.
  abbrev pub refusal : J.Value → J.Value
  refusal id = J.object (
      ("jsonrpc", J.string "2.0")
      ∷ ("id", id)
      ∷ ("error", J.object (("code", R.negative 32000) ∷ ("message", J.string paused_text) ∷ []))
      ∷ [])

  -- No call gets through `dispatch`.
  abbrev pub IsRefusing : Type 0
  IsRefusing =
      (tool : ToolSpec J.Value) (args : J.Value)
      → dispatch J D O U wait state.ctx tool args st
        ≡ (err (permission_denied "MCP is paused — open mail-mcp Settings to resume."), st)

  tools_call-refuses :
      (req : JsonRpcReq J.Value) (tool : ToolSpec J.Value)
      → IsRefusing
      → tool_name J req.params ≢ "list_accounts"
      → find (λ t. t.name == tool_name J req.params) (tools J) ≡ some tool
      → tools_call J R D O U wait state req st ≡ (refusal req.id, st)
  unfolding tools_call respond rpc_err display
  tools_call-refuses req tool refusing other found =
      elim (Bool-cases (tool_name J req.params == "list_accounts")) [
        | inl named ↦ absurd (other ((==_iff (tool_name J req.params) "list_accounts").0 named))
        | inr unnamed ↦ rw (unnamed, found, refusing tool (tool_args J req.params)) refl
      ]

  tools_call-quiet :
      (req : JsonRpcReq J.Value) → IsRefusing → (tools_call J R D O U wait state req st).1 ≡ st
  unfolding tools_call
  tools_call-quiet req refusing = elim (Bool-cases (tool_name J req.params == "list_accounts")) [
    | inl named ↦ rw named refl
    | inr unnamed ↦ elim (Option-cases (find (λ t. t.name == tool_name J req.params) (tools J))) [
      | inl missing ↦ rw (unnamed, missing) refl
      | inr (tool, found) ↦ rw (unnamed, found, refusing tool (tool_args J req.params)) refl
    ]
  ]

  handle_post-quiet :
      (header : Authorization) (req : JsonRpcReq J.Value)
      → IsRefusing
      → (handle_post J R D O U wait state header req st).1 ≡ st
  unfolding handle_post handle_method
  handle_post-quiet header req refusing = ground (arith, tools_call-quiet req refusing)

  handle_post-refuses :
      (header : Authorization) (req : JsonRpcReq J.Value) (tool : ToolSpec J.Value)
      → IsRefusing
      → IsBearer state.bearer_token header
      → req.method ≡ "tools/call"
      → tool_name J req.params ≢ "list_accounts"
      → find (λ t. t.name == tool_name J req.params) (tools J) ≡ some tool
      → handle_post J R D O U wait state header req st ≡ ((ok_200, refusal req.id), st)
  unfolding handle_post handle_method tools_call
  handle_post-refuses header req tool refusing bearer calls other found =
      rw
        (
          (check_auth_iff header state.bearer_token).1 bearer,
          calls,
          tools_call-refuses req tool refusing other found,
        )
        refl

module _ (J : Json) (C : Codec) (U : Ulid) (O : Oneshot) (K : Keyring) (T : Chrono) (S : Type 0)
    (W : Writers J C) (empty_config : C.Value)
    (gmail : AccountId → OAuthTokens T → String → MailProvider S) (version : String)
    (mcp_endpoint : McpEndpointInfo) where
  -- Once `mcp.pause` was called with a true flag and until the next `mcp.pause`, whatever other
  -- methods are called in between, one after another, an authorized `tools/call` of any tool of the
  -- catalog but `list_accounts` is answered with the error that the daemon is paused; and no request
  -- whatever, with any header, changes the queue, the trust or the mailbox.
  pub pause-handle_post :
      (R : Rpc J C) (D : Serde J) (wait : Wait J.Value) (call : Call T) (params : J.Value)
      (rs : List (Request J C U O K T S W empty_config gmail version mcp_endpoint))
      (d : Daemon J.Value C O K T S) (state : McpState S) (st : CallState J.Value O S)
      (header any_header : Authorization) (req any_req : JsonRpcReq J.Value)
      (tool : ToolSpec J.Value)
      → flag_param J params "paused" ≡ true
      → All (λ r. r.method ≢ "mcp.pause") rs
      → state.ctx
        ≡ context_of (
            serve J C U O K T S W empty_config gmail version mcp_endpoint rs (
              run J C U O K T S W empty_config gmail version mcp_endpoint call "mcp.pause" params
                d))
      → IsBearer state.bearer_token header
      → req.method ≡ "tools/call"
      → tool_name J req.params ≢ "list_accounts"
      → find (λ t. t.name == tool_name J req.params) (tools J) ≡ some tool
      → (handle_post J R D O U wait state header req st
          ≡ ((ok_200, refusal J R D O U wait state st req.id), st))
        × ((handle_post J R D O U wait state any_header any_req st).1 ≡ st)
  pause-handle_post R D wait call params rs d state st header any_header req any_req tool asked
        others served bearer calls other found =
      let refusing : IsRefusing J R D O U wait state st = λ tool args.
        ap (λ ctx. dispatch J D O U wait ctx tool args st) served
        ∙ pause-dispatch J C U O K T S W empty_config gmail version mcp_endpoint D wait call params
            rs d tool args st asked others in
      (
        handle_post-refuses J R D O U wait state st header req tool refusing bearer calls other
            found,
        handle_post-quiet J R D O U wait state st any_header any_req refusing,
      )
