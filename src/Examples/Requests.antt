-- ===== src/Examples/Requests.antt =====
-- A request to move a message, with the right token and with a wrong one.
use mail_mcp.Base.{◌≡◌, ◌↔◌, some, [], ◌∷◌}
use mail_mcp.Approvals.Consent.{new-IsOpen}
use mail_mcp.Server.{
  McpState, Authorization, JsonRpcReq, ok_200, unauthorized_401, Rpc, handle_post,
}
use mail_mcp.Server.Authorized.{IsBearer}
use mail_mcp.Server.Reach.{Reached, handle_post-IsBearer, handle_post-Reached}
use mail_mcp.Examples.Instances.{channel, ulid}
use mail_mcp.Examples.Documents.{Doc, json, text, number}
use mail_mcp.Examples.Mailbox.{Log, serde}
use mail_mcp.Examples.Registering.{codec}
use mail_mcp.Examples.Dispatching.{context, wait, start, moved}

abbrev pub rpc : Rpc json codec
rpc = record {
  value_text = λ v. "";
  accounts_value = λ accounts. text "accounts";
  negative = λ n. number n;
}

abbrev pub state : McpState Log
state = record {
  ctx = context;
  bearer_token = "secret";
  server_info = record { name = "mail-mcp"; version = "0.1.0" };
}

abbrev pub request : JsonRpcReq Doc
request = record {
  id = number 1;
  method = "tools/call";
  params = json.object (("name", json.string "move_to") ∷ ("arguments", moved) ∷ []);
}

abbrev pub right : Authorization
right = some (some "Bearer secret")

handle_post-IsBearer_example :
    (((handle_post json rpc serde channel ulid wait state right request start).0.0 ≡ ok_200)
      ↔ IsBearer "secret" right)
    × (¬ IsBearer "secret" right
        → ((handle_post json rpc serde channel ulid wait state right request start).0.0
            ≡ unauthorized_401)
          × ((handle_post json rpc serde channel ulid wait state right request start).1 ≡ start))
handle_post-IsBearer_example =
    handle_post-IsBearer json rpc serde channel ulid wait state right request start

handle_post-Reached_example :
    Reached json rpc serde channel ulid wait state right request start
      (handle_post json rpc serde channel ulid wait state right request start).1.remote
handle_post-Reached_example =
    handle_post-Reached json rpc serde channel ulid wait state right request start
      (new-IsOpen channel)
