-- ===== src/Examples/Connecting.antt =====
-- A client that subscribes, gets a notification, and is cut off from the next.
use Prim.Native.String.{◌++◌}
use mail_mcp.Base.{
  ◌≡◌, refl, String, none, some, List, [], ◌∷◌, Bool, true, false, ok, err, Parsed, parsed, unknown,
  not_found, if◌then◌else◌, ◌==◌,
}
use mail_mcp.Base.State.{M}
use mail_mcp.Ipc.Messages.{mcp_paused_changed}
use mail_mcp.Ipc.Server.{
  JsonRpcRequest, Wire, Socket, Event, line, received, receive_failed, Conn, serve_conn,
}
use mail_mcp.Ipc.Server.Writes.{IsSound}
use mail_mcp.Ipc.Server.Lost.{serve_conn-lost}
use mail_mcp.Examples.Documents.{Doc, json, null, object}
use mail_mcp.Examples.Registering.{codec}

-- A line is a method; a request for notifications asks for those of the pause flag.
abbrev request : String → Parsed (JsonRpcRequest Doc)
request s =
    if s == ""
    then unknown "empty"
    else parsed (record {
      id = json.string "1";
      method = s;
      params = some (json.object (("events", null) ∷ []));
    })

abbrev kind_of : Doc → String
kind_of (object _) = "frame"
kind_of _ = "other"

abbrev wire : Wire json codec
wire = record {
  decode = request;
  encode = kind_of;
  negative = λ n. json.number n;
  tagged = λ n. ok null;
  texts = λ v. some ("mcp.paused_changed" ∷ []);
}

abbrev pub socket : Socket
socket = record {
  Tx = String;
  IsOpen = λ t. Unit {0};
  sent = λ t. t;
  write_all = λ s t. (ok tt, t ++ s);
  write_all-ok = λ s t o. refl;
  write_all-IsOpen = λ s t o. tt;
  sent-write_all = λ s t o. refl;
}

abbrev unknown_method : String → Doc → M (Unit {0}) Doc
unknown_method method params s = (err (not_found method), s)

abbrev connection : Bool → Conn String (Unit {0})
connection started = record {
  subscribed = [];
  fanout_started = started;
  forwarding = started;
  ended = none;
  writer = "";
  backend = tt;
}

connection-IsSound :
    (started : Bool) → IsSound json codec wire socket unknown_method (connection started)
connection-IsSound started = record { opened = tt; started = λ e. e }

abbrev events : List (Event Doc codec)
events =
    line "subscribe" (some (mcp_paused_changed true) ∷ [])
    ∷ received (mcp_paused_changed false)
    ∷ line "" []
    ∷ []

serve_conn-lost_example :
    (serve_conn json codec wire socket unknown_method
      (receive_failed ∷ events)
      (connection true)).writer
    ≡ (serve_conn json codec wire socket unknown_method
        (receive_failed ∷ line "subscribe" [] ∷ line "" [] ∷ [])
        (connection true)).writer
serve_conn-lost_example =
    serve_conn-lost json codec wire unknown_method socket events (connection true)
      (connection-IsSound true) refl
