-- ===== src/Shim/Forwarding.antt =====
-- The shim in front of the server of this repository.
use Prim.Native.String.{◌++◌ as concat}
use mail_mcp.Base.{
  ℕ, ◌≡◌, refl, ap, ◌∙◌, false, String, Option, none, some, List, [], ◌∷◌, map, Result, ok, arith,
  All, ◌==◌,
}
use mail_mcp.Base.Ids.{Ulid}
use mail_mcp.Base.State.{M}
use mail_mcp.Base.Texts.{trim, trim_end}
use mail_mcp.Json.{Json}
use mail_mcp.Accounts.{Codec}
use mail_mcp.Approvals.{Oneshot}
use mail_mcp.Enforce.{Wait}
use mail_mcp.Dispatch.Execute.{Serde}
use mail_mcp.Dispatch.Call.{CallState}
use mail_mcp.Ipc.Messages.{McpEndpointInfo}
use mail_mcp.Server.{
  McpState, JsonRpcReq, StatusCode, ok_200, unauthorized_401, Rpc, handle_method, handle_post,
}
use mail_mcp.Server.Authorized.{check_auth_iff}
use mail_mcp.Shim.{Answer, is_success, line_of, forward}

-- The numbers of the status codes.
unfoldable pub number_of : StatusCode → ℕ
number_of ok_200 = 200
number_of unauthorized_401 = 401

module _ (J : Json) {C : Codec} (R : Rpc J C) (D : Serde J) (O : Oneshot) (U : Ulid) {S : Type 0}
    (wait : Wait J.Value) (state : McpState S) (encode : J.Value → String)
    (decode : String → Option (JsonRpcReq J.Value)) where
  -- The server behind HTTP: axum reads the body, or answers with 422 where it is no request, and writes
  -- what `handle_post` yields.
  unfoldable pub serve_http : (url token body : String) → M (CallState J.Value O S) Answer
  serve_http url token body st = elim (decode body) [
    | none ↦ (ok (record { status = 422; body = "" }), st)
    | some req ↦
        let ((status, v), st') =
          handle_post J R D O U wait state (some (some (concat "Bearer " token))) req st in
        (ok (record { status = number_of status; body = encode v }), st')
  ]

  -- The answers of the server to some requests, one after the other.
  unfoldable pub replies :
      List (JsonRpcReq J.Value) → CallState J.Value O S → List String × CallState J.Value O S
  replies [] st = ([], st)
  replies (req ∷ reqs) st =
      let (v, st') = handle_method J R D O U wait state req st in
      let (lines, end) = replies reqs st' in (trim_end (encode v) ∷ lines, end)

  -- A line is a request, and not blank.
  abbrev pub IsRequest : String × JsonRpcReq J.Value → Type 0
  IsRequest (line, req) = (decode line ≡ some req) × ((trim line == "") ≡ false)

  serve_http-ok :
      (url line : String) (req : JsonRpcReq J.Value) (st : CallState J.Value O S)
      → decode line ≡ some req
      → serve_http url state.bearer_token line st ≡ (
        ok (record { status = 200; body = encode (handle_method J R D O U wait state req st).0 }),
        (handle_method J R D O U wait state req st).1,
      )
  unfolding serve_http handle_post number_of
  serve_http-ok url line req st h =
      let authorized =
        (check_auth_iff (some (some (concat "Bearer " state.bearer_token))) state.bearer_token).1
          refl in
      ground (arith, h, authorized)

  module _ (negative : ℕ → J.Value) (reason : ℕ → String) (info : McpEndpointInfo) where
    abbrev shim :
        List (Result String)
        → CallState J.Value O S
        → (Result (Unit {0}) × List String) × CallState J.Value O S
    shim = forward J negative encode reason serve_http info

    forward-step :
        (line : String) (req : JsonRpcReq J.Value) (rest : List (Result String))
        (st : CallState J.Value O S)
        → info.bearer_token ≡ state.bearer_token
        → IsRequest (line, req)
        → shim (ok line ∷ rest) st ≡ (
          (
            (shim rest (handle_method J R D O U wait state req st).1).0.0,
            trim_end (encode (handle_method J R D O U wait state req st).0)
                ∷ (shim rest (handle_method J R D O U wait state req st).1).0.1,
          ),
          (shim rest (handle_method J R D O U wait state req st).1).1,
        )
    unfolding forward line_of is_success
    forward-step line req rest st same_token (reads, full) =
        let sent =
          ap (λ t. serve_http info.url t line st) same_token
          ∙ serve_http-ok info.url line req st reads in
        ground (arith, full, sent)

    -- A shim that has the daemon's token is transparent: for each line that is a request it writes the
    -- text of the server's response to that request, in the order of the requests, and the server's state
    -- is as if they had been made to it directly.
    pub forward-replies :
        (requests : List (String × JsonRpcReq J.Value)) (st : CallState J.Value O S)
        → info.bearer_token ≡ state.bearer_token
        → All IsRequest requests
        → shim (map (λ r. ok r.0) requests) st ≡ (
          (ok tt, (replies (map (λ r. r.1) requests) st).0),
          (replies (map (λ r. r.1) requests) st).1,
        )
    unfolding replies forward
    forward-replies [] st same_token h = refl
    forward-replies ((line, req) ∷ requests) st same_token (p, ps) =
        let next = (handle_method J R D O U wait state req st).1 in
        forward-step line req (map (λ r. ok r.0) requests) st same_token p
        ∙ ap
            (λ r. (
              (r.0.0, trim_end (encode (handle_method J R D O U wait state req st).0) ∷ r.0.1),
              r.1,
            ))
            (forward-replies requests next same_token ps)
