-- ===== src/Examples/Shimming.antt =====
-- Two requests that are piped through the shim to a server with one account.
use mail_mcp.Base.{
  ◌≡◌, refl, String, Option, some, none, [], ◌∷◌, ok, false, nat_key, ◌==◌, if◌then◌else◌,
}
use mail_mcp.Base.Texts.{trim, trim_start, trim_end, is_whitespace}
use mail_mcp.Ipc.Messages.{McpEndpointInfo}
use mail_mcp.Server.{JsonRpcReq}
use mail_mcp.Shim.{forward}
use mail_mcp.Shim.Forwarding.{serve_http, replies, forward-replies}
use mail_mcp.Examples.Instances.{channel, ulid}
use mail_mcp.Examples.Documents.{Doc, json, null, number}
use mail_mcp.Examples.Mailbox.{serde}
use mail_mcp.Examples.Dispatching.{wait, start, moved}
use mail_mcp.Examples.Requests.{rpc, state}

abbrev asking : JsonRpcReq Doc
asking = record { id = number 1; method = "initialize"; params = null }

abbrev moving : JsonRpcReq Doc
moving = record {
  id = number 2;
  method = "tools/call";
  params = json.object (("name", json.string "move_to") ∷ ("arguments", moved) ∷ []);
}

abbrev encode : Doc → String
encode v = "answer"

abbrev decode : String → Option (JsonRpcReq Doc)
decode line = if line == "initialize" then some asking else some moving

abbrev info : McpEndpointInfo
info = record { url = "http://127.0.0.1:1/mcp"; bearer_token = "secret"; stdio_shim_path = none }

asked_text : (trim "initialize" == "") ≡ false
unfolding trim trim_start trim_end is_whitespace nat_key
asked_text = refl

moved_text : (trim "move" == "") ≡ false
unfolding trim trim_start trim_end is_whitespace nat_key
moved_text = refl

forward-replies_example :
    forward json number encode
      (λ n. "")
      (serve_http json rpc serde channel ulid wait state encode decode)
      info
      (ok "initialize" ∷ ok "move" ∷ [])
      start
    ≡ (
      (
        ok tt,
        (replies json rpc serde channel ulid wait state encode decode
            (asking ∷ moving ∷ [])
            start).0,
      ),
      (replies json rpc serde channel ulid wait state encode decode (asking ∷ moving ∷ []) start).1,
    )
forward-replies_example =
    forward-replies json rpc serde channel ulid wait state encode decode number (λ n. "") info
      (("initialize", asking) ∷ ("move", moving) ∷ []) start refl
      ((refl, asked_text), ((refl, moved_text), tt))
