-- ===== src/Server.antt =====
-- crates/mail-mcp-daemon/src/mcp/server.rs: the JSON-RPC handler of `POST /mcp`.
--
-- axum's routing and the decoding of the request's body are not modelled. `Rpc` has what the
-- handler takes from other crates: the text of a JSON value and the serialised form of the
-- accounts.
pub mod Authorized
pub mod Reach
use Prim.Native.String.{◌++◌}
use mail_mcp.Base.{
  ℕ, Bool, true, false, String, Option, none, some, List, [], ◌∷◌, map, find, Error, Result, ok,
  err, display, and_then, unwrap_or, if◌then◌else◌, ◌==◌,
}
use mail_mcp.Base.Ids.{Ulid}
use mail_mcp.Base.Texts.{strip_prefix}
use mail_mcp.Json.{Json}
use mail_mcp.Accounts
use mail_mcp.Accounts.{Codec, Account}
use mail_mcp.Approvals.{Oneshot}
use mail_mcp.Enforce.{Wait}
use mail_mcp.Tools.{ToolSpec, tools}
use mail_mcp.Dispatch.Execute.{Serde}
use mail_mcp.Dispatch.Call.{DispatchContext, CallState, dispatch}

pub record ServerInfo : Type 0 where
  pub name : String
  pub version : String

pub record McpState (S : Type 0) : Type 0 where
  pub ctx : DispatchContext S
  pub bearer_token : String
  pub server_info : ServerInfo

-- The AUTHORIZATION header, if there is one, and its text, if it is one.
abbrev pub Authorization : Type 0
Authorization = Option (Option String)

pub record JsonRpcReq (V : Type 0) : Type 0 where
  pub id : V
  pub method : String
  pub params : V

pub data StatusCode : Type 0 where
  ok_200 unauthorized_401 : StatusCode

pub record Rpc (J : Json) (C : Codec) : Type 0 where
  pub value_text : J.Value → String
  pub accounts_value : List (Account C) → J.Value
  -- An i32, as a JSON number.
  pub negative : ℕ → J.Value

-- `check_auth`
unfoldable pub check_auth : Authorization → String → Bool
check_auth none expected = false
check_auth (some none) expected = false
check_auth (some (some s)) expected = elim (strip_prefix "Bearer " s) [
  | none ↦ false
  | some t ↦ t == expected
]

module _ (J : Json) where
  -- The `name` and the `arguments` of `tools/call`.
  unfoldable pub tool_name : J.Value → String
  tool_name params = unwrap_or (and_then (J.get params "name") J.as_str) ""

  unfoldable pub tool_args : J.Value → J.Value
  tool_args params = unwrap_or (J.get params "arguments") J.null

module _ (J : Json) {C : Codec} (R : Rpc J C) where
  -- `ok(id, result)`
  unfoldable pub rpc_ok : J.Value → J.Value → J.Value
  rpc_ok id result = J.object (("jsonrpc", J.string "2.0") ∷ ("id", id) ∷ ("result", result) ∷ [])

  -- `err(id, -code, message)`
  unfoldable pub rpc_err : J.Value → ℕ → String → J.Value
  rpc_err id code message = J.object (
      ("jsonrpc", J.string "2.0")
      ∷ ("id", id)
      ∷ ("error", J.object (("code", R.negative code) ∷ ("message", J.string message) ∷ []))
      ∷ [])

  -- The result of a tool call.
  unfoldable pub tool_result : J.Value → J.Value
  tool_result v = J.object (
      (
        "content",
        J.array
            (J.object (("type", J.string "text") ∷ ("text", J.string (R.value_text v)) ∷ []) ∷ []),
      )
      ∷ ("structuredContent", v)
      ∷ ("isError", J.bool false)
      ∷ [])

  -- The result of `initialize`.
  unfoldable pub initialize : ServerInfo → J.Value
  initialize info = J.object (
      ("protocolVersion", J.string "2025-06-18")
      ∷ ("capabilities", J.object (("tools", J.object (("listChanged", J.bool false) ∷ [])) ∷ []))
      ∷ (
        "serverInfo",
        J.object (("name", J.string info.name) ∷ ("version", J.string info.version) ∷ []),
      )
      ∷ [])

  unfoldable pub tool_entry : ToolSpec J.Value → J.Value
  tool_entry t = J.object (
      ("name", J.string t.name)
      ∷ ("description", J.string t.description)
      ∷ ("inputSchema", t.input_schema)
      ∷ [])

  -- The result of `tools/list`.
  unfoldable pub tools_list : J.Value
  tools_list = J.object (("tools", J.array (map tool_entry (tools J))) ∷ [])

  -- The value that `list_accounts` answers with.
  unfoldable pub accounts_or_null : Result (List (Account C)) → J.Value
  accounts_or_null (ok accounts) = R.accounts_value accounts
  accounts_or_null (err e) = J.null

  -- The match on what `dispatch` returns.
  unfoldable pub respond : J.Value → Result J.Value → J.Value
  respond id (ok v) = rpc_ok id (tool_result v)
  respond id (err e) = rpc_err id 32000 (display e)

  module _ (D : Serde J) (O : Oneshot) (U : Ulid) {S : Type 0} (wait : Wait J.Value)
      (state : McpState S) where
    -- The branch of `tools/call`.
    unfoldable pub tools_call :
        JsonRpcReq J.Value → CallState J.Value O S → J.Value × CallState J.Value O S
    tools_call req st =
        let name = tool_name J req.params in
        if name == "list_accounts"
        then (
          rpc_ok req.id (tool_result (accounts_or_null (Accounts.list C U state.ctx.storage).0)),
          st,
        )
        else elim (find (λ t. t.name == name) (tools J)) [
          | some tool ↦
              let (r, st') = dispatch J D O U wait state.ctx tool (tool_args J req.params) st in
              (respond req.id r, st')
          | none ↦ (rpc_err req.id 32601 ("unknown tool: " ++ name), st)
        ]

    -- The match on the method.
    unfoldable pub handle_method :
        JsonRpcReq J.Value → CallState J.Value O S → J.Value × CallState J.Value O S
    handle_method req st =
        if req.method == "initialize"
        then (rpc_ok req.id (initialize state.server_info), st)
        else if req.method == "ping"
        then (rpc_ok req.id (J.object []), st)
        else if req.method == "tools/list"
        then (rpc_ok req.id tools_list, st)
        else if req.method == "tools/call"
        then tools_call req st
        else (rpc_err req.id 32601 ("method not found: " ++ req.method), st)

    abbrev pub with_status :
        StatusCode
        → J.Value × CallState J.Value O S
        → (StatusCode × J.Value) × CallState J.Value O S
    with_status status (body, st) = ((status, body), st)

    -- `handle_post`
    unfoldable pub handle_post :
        Authorization
        → JsonRpcReq J.Value
        → CallState J.Value O S
        → (StatusCode × J.Value) × CallState J.Value O S
    handle_post header req st =
        if check_auth header state.bearer_token
        then with_status ok_200 (handle_method req st)
        else with_status unauthorized_401
            (rpc_err req.id 32001 "missing or invalid bearer token", st)
