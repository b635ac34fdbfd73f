-- ===== src/Ipc/Server.antt =====
-- ipc/server.rs: one connection, `serve_conn`, and the task that forwards notifications to it.
--
-- What happens to a connection is a list of events: a line of the client, with what the task receives
-- before the line's response is written; the end of the input; and what the task's next `recv`
-- yields between lines, which is an error once the task has fallen behind. Both write frames under
-- one lock, so that a frame is one step. serde_json, the socket and the handler are
-- interfaces; a handler that panics is not modelled.
pub mod Frames
pub mod Writes
pub mod Forwarding
pub mod Delivery
pub mod Lost
use Prim.Native.String.{◌++◌ as concat}
use mail_mcp.Base.{
  ℕ, ◌≡◌, ◌++◌, Bool, true, false, String, Option, none, some, List, [], ◌∷◌, map, any, ◌==◌,
  if◌then◌else◌, Error, Result, ok, err, Parsed, parsed, unknown, not_found, permission_denied,
  approval_timeout, approval_rejected, display, and_then, unwrap_or,
}
use mail_mcp.Base.State.{M, ◌>>◌}
use mail_mcp.Base.Texts.{trim}
use mail_mcp.Json.{Json}
use mail_mcp.Accounts.{Codec}
use mail_mcp.Ipc.Messages.{
  Notification, approval_requested, approval_resolved, account_added, account_removed,
  account_needs_reauth, mcp_paused_changed,
}

pub record JsonRpcRequest (V : Type 0) : Type 0 where
  pub id : V
  pub method : String
  pub params : Option V

pub record JsonRpcError : Type 0 where
  -- The code without its sign: every code is negative.
  pub code : ℕ
  pub message : String

pub record JsonRpcResponse (V : Type 0) : Type 0 where
  pub id : V
  pub result : Option V
  pub error : Option JsonRpcError

-- serde_json: `from_str` of a request, `to_string`, a negative number, `to_value` of a
-- notification, and `from_value` of a list of texts.
pub record Wire (J : Json) (C : Codec) : Type 0 where
  pub decode : String → Parsed (JsonRpcRequest J.Value)
  pub encode : J.Value → String
  pub negative : ℕ → J.Value
  pub tagged : Notification J.Value C → Result J.Value
  pub texts : J.Value → Option (List String)

-- The writing half of a socket: `write_all`, and what has been written. While the socket is open a
-- write succeeds and leaves it open.
pub record Socket : Type 1 where
  pub Tx : Type 0
  pub IsOpen : Tx → Type 0
  pub sent : Tx → String
  pub write_all : String → Tx → Result (Unit {0}) × Tx
  pub write_all-ok : (s : String) (t : Tx) → IsOpen t → (write_all s t).0 ≡ ok tt
  pub write_all-IsOpen : (s : String) (t : Tx) → IsOpen t → IsOpen (write_all s t).1
  pub sent-write_all : (s : String) (t : Tx) → IsOpen t → sent (write_all s t).1 ≡ concat (sent t) s

-- `error_code`, without the sign
unfoldable pub error_code : Error → ℕ
error_code (not_found _) = 32601
error_code (permission_denied _) = 32002
error_code approval_rejected = 32003
error_code approval_timeout = 32004
error_code _ = 32000

-- The match on the variant in `notification_to_method_and_params`.
unfoldable pub method_of : {V : Type 0} {C : Codec} → Notification V C → String
method_of (approval_requested _) = "approval.requested"
method_of (approval_resolved _ _) = "approval.resolved"
method_of (account_added _) = "account.added"
method_of (account_removed _) = "account.removed"
method_of (account_needs_reauth _) = "account.needs_reauth"
method_of (mcp_paused_changed _) = "mcp.paused_changed"

-- What a connection meets.
pub data Event (V : Type 0) (C : Codec) : Type 0 where
  -- A line, and what the task's `recv` yields before the response is written, none where it fails.
  line : String → (meanwhile : List (Option (Notification V C))) → Event V C
  read_failed : Error → Event V C
  end_of_input : Event V C
  received : Notification V C → Event V C
  receive_failed : Event V C

-- The variables of `serve_conn`, the writer, and the handler's state. `forwarding` holds while the
-- spawned task runs its loop, `ended` is what `serve_conn` returned.
pub record Conn (Tx Σ : Type 0) : Type 0 where
  pub subscribed : List String
  pub fanout_started : Bool
  pub forwarding : Bool
  pub ended : Option (Result (Unit {0}))
  pub writer : Tx
  pub backend : Σ

module _ (J : Json) (C : Codec) (R : Wire J C) where
  unfoldable pub error_value : Option JsonRpcError → List (String × J.Value)
  error_value none = []
  error_value (some e) =
      ("error", J.object (("code", R.negative e.code) ∷ ("message", J.string e.message) ∷ [])) ∷ []

  unfoldable pub result_value : Option J.Value → List (String × J.Value)
  result_value none = []
  result_value (some v) = ("result", v) ∷ []

  -- `serde_json::to_value` of a response, absent fields skipped.
  unfoldable pub response_value : JsonRpcResponse J.Value → J.Value
  response_value r =
      J.object
        (("jsonrpc", J.string "2.0") ∷ ("id", r.id) ∷ result_value r.result ++ error_value r.error)

  -- `notification_to_method_and_params`
  unfoldable pub notification_to_method_and_params : Notification J.Value C → String × J.Value
  notification_to_method_and_params n = (
    method_of n,
    elim (R.tagged n) [ err _ ↦ J.null | ok v ↦ unwrap_or (J.get v "params") J.null ],
  )

  -- The frame that the task makes of a notification.
  unfoldable pub notification_value : Notification J.Value C → J.Value
  notification_value n =
      let (method, params) = notification_to_method_and_params n in
      J.object (("jsonrpc", J.string "2.0") ∷ ("method", J.string method) ∷ ("params", params) ∷ [])

  -- The response to a request, by what it ended with.
  unfoldable pub respond : J.Value → Result J.Value → JsonRpcResponse J.Value
  respond id (ok v) = record { id = id; result = some v; error = none }
  respond id (err e) = record {
    id = id;
    result = none;
    error = some (record { code = error_code e; message = display e });
  }

  -- The response to a line that is no request.
  unfoldable pub parse_error : String → JsonRpcResponse J.Value
  parse_error e = record {
    id = J.null;
    result = none;
    error = some (record { code = 32700; message = concat "parse: " e });
  }

  -- The `events` of a `subscribe`.
  unfoldable pub events_of : Option J.Value → List String
  events_of params = unwrap_or (and_then (and_then params (λ p. J.get p "events")) R.texts) []

  unfoldable pub subscribed_value : List String → J.Value
  subscribed_value events = J.object (("subscribed", J.array (map J.string events)) ∷ [])

  module _ (K : Socket) {Σ : Type 0} (handle : String → J.Value → M Σ J.Value) where
    abbrev pub Connection : Type 0
    Connection = Conn K.Tx Σ

    -- Two writes, the second only when the first succeeded.
    unfoldable pub write_frame : J.Value → K.Tx → Result (Unit {0}) × K.Tx
    write_frame v = K.write_all (R.encode v) >> K.write_all "\n"

    -- Two writes, whatever the first ended with.
    unfoldable pub write_ignoring : J.Value → K.Tx → K.Tx
    write_ignoring v tx = (K.write_all "\n" (K.write_all (R.encode v) tx).1).1

    -- The branch of `subscribe`: the filter, and the task if there is none.
    unfoldable pub subscribe : List String → Connection → Connection
    subscribe events c = record c {
      subscribed = events;
      fanout_started = true;
      forwarding = if c.fanout_started then c.forwarding else true;
    }

    -- `result` of a request
    unfoldable pub answer : JsonRpcRequest J.Value → Connection → Result J.Value × Connection
    answer req c =
        if req.method == "subscribe"
        then (ok (subscribed_value (events_of req.params)), subscribe (events_of req.params) c)
        else (
          (handle req.method (unwrap_or req.params J.null) c.backend).0,
          record c { backend = (handle req.method (unwrap_or req.params J.null) c.backend).1 },
        )

    -- The end of an iteration: a failed write ends `serve_conn`.
    unfoldable pub written : Connection → Result (Unit {0}) × K.Tx → Connection
    written c (ok _, tx) = record c { writer = tx }
    written c (err e, tx) = record c { writer = tx; ended = some (err e) }

    unfoldable pub reply : J.Value → Result J.Value × Connection → Connection
    reply id (r, c) = written c (write_frame (response_value (respond id r)) c.writer)

    -- The end of an iteration of the task: a failed write ends it.
    unfoldable pub forwarded : Connection → Result (Unit {0}) × K.Tx → Connection
    forwarded c (ok _, tx) = record c { writer = tx }
    forwarded c (err e, tx) = record c { writer = tx; forwarding = false }

    -- An iteration of the task's loop.
    unfoldable pub forward : Notification J.Value C → Connection → Connection
    forward n c =
        if any (λ m. m == method_of n) c.subscribed
        then forwarded c (write_frame (notification_value n) c.writer)
        else c

    -- What one `recv` of the task leads to. A task that is not running receives nothing.
    unfoldable pub task : Option (Notification J.Value C) → Connection → Connection
    task (some n) c = if c.forwarding then forward n c else c
    task none c = record c { forwarding = false }

    unfoldable pub tasks : List (Option (Notification J.Value C)) → Connection → Connection
    tasks [] c = c
    tasks (r ∷ rs) c = tasks rs (task r c)

    abbrev pub wrote_error : String → Connection → Connection
    wrote_error e c = record c { writer = write_ignoring (response_value (parse_error e)) c.writer }

    abbrev pub while_answered :
        List (Option (Notification J.Value C))
        → Result J.Value × Connection
        → Result J.Value × Connection
    while_answered meanwhile (r, c) = (r, tasks meanwhile c)

    -- An iteration of the loop of `serve_conn`. The task goes on until the response is written.
    unfoldable pub serve_line :
        String → List (Option (Notification J.Value C)) → Connection → Connection
    serve_line text meanwhile c = elim (R.decode (trim text)) [
      | unknown e ↦ wrote_error e (tasks meanwhile c)
      | parsed req ↦ reply req.id (while_answered meanwhile (answer req c))
    ]

    -- What one event does. A connection that has ended reads no more.
    unfoldable pub step : Event J.Value C → Connection → Connection
    step (line text meanwhile) c = elim c.ended [
      | none ↦ serve_line text meanwhile c
      | some _ ↦ tasks meanwhile c
    ]
    step (read_failed e) c = elim c.ended [ none ↦ record c { ended = some (err e) } | some _ ↦ c ]
    step end_of_input c = elim c.ended [ none ↦ record c { ended = some (ok tt) } | some _ ↦ c ]
    step (received n) c = task (some n) c
    step receive_failed c = task none c

    unfoldable pub serve_conn : List (Event J.Value C) → Connection → Connection
    serve_conn [] c = c
    serve_conn (e ∷ es) c = serve_conn es (step e c)
