-- ===== src/Ipc/Server/Frames.antt =====
-- What a connection promises, as a machine that yields the frames of each event.
use Prim.Native.String.{◌++◌ as concat}
use mail_mcp.Base.{
  ℕ, Bool, false, String, Option, none, some, List, [], ◌∷◌, ◌++◌, map, any, ◌==◌, if◌then◌else◌,
  Result, ok, err, display, parsed, unknown, unwrap_or,
}
use mail_mcp.Base.State.{M}
use mail_mcp.Base.Texts.{trim}
use mail_mcp.Json.{Json}
use mail_mcp.Accounts.{Codec}
use mail_mcp.Ipc.Messages.{Notification}
use mail_mcp.Ipc.Server.{
  JsonRpcRequest, Wire, error_code, method_of, Event, line, read_failed, end_of_input, received,
  receive_failed, events_of,
}

-- No subscription yet, one with these methods, or a subscription whose notifications were lost.
pub data Feed : Type 0 where
  unarmed : Feed
  armed : List String → Feed
  dead : Feed

pub record Client (Σ : Type 0) : Type 0 where
  pub feed : Feed
  pub reading : Bool
  pub backend : Σ

-- A subscription replaces the methods, but does not bring a lost feed back.
unfoldable pub resubscribe : List String → Feed → Feed
resubscribe events unarmed = armed events
resubscribe events (armed _) = armed events
resubscribe events dead = dead

unfoldable pub lose : Feed → Feed
lose unarmed = unarmed
lose (armed _) = dead
lose dead = dead

unfoldable pub wants : Feed → String → Bool
wants (armed events) method = any (λ m. m == method) events
wants unarmed method = false
wants dead method = false

module _ (J : Json) (C : Codec) (R : Wire J C) {Σ : Type 0}
    (handle : String → J.Value → M Σ J.Value) where
  -- What the protocol has on the wire, key by key: the response to a request, under its id, with
  -- the result or the error; and a notification.
  abbrev pub failure : J.Value → ℕ → String → J.Value
  failure id code message = J.object (
      ("jsonrpc", J.string "2.0")
      ∷ ("id", id)
      ∷ ("error", J.object (("code", R.negative code) ∷ ("message", J.string message) ∷ []))
      ∷ [])

  abbrev pub response : J.Value → Result J.Value → J.Value
  response id (ok v) = J.object (("jsonrpc", J.string "2.0") ∷ ("id", id) ∷ ("result", v) ∷ [])
  response id (err e) = failure id (error_code e) (display e)

  abbrev pub announcement : String → J.Value → J.Value
  announcement method params =
      J.object (("jsonrpc", J.string "2.0") ∷ ("method", J.string method) ∷ ("params", params) ∷ [])

  -- The params of a notification, where serde writes any.
  abbrev pub params_of : Notification J.Value C → J.Value
  params_of n = elim (R.tagged n) [ err _ ↦ J.null | ok v ↦ unwrap_or (J.get v "params") J.null ]

  -- A request has one response, under its id.
  unfoldable pub request_frame : JsonRpcRequest J.Value → Client Σ → J.Value × Client Σ
  request_frame req c =
      if req.method == "subscribe"
      then (
        response req.id (
            ok (
              J.object (("subscribed", J.array (map J.string (events_of J C R req.params))) ∷ []))),
        record c { feed = resubscribe (events_of J C R req.params) c.feed },
      )
      else (
        response req.id (handle req.method (unwrap_or req.params J.null) c.backend).0,
        record c { backend = (handle req.method (unwrap_or req.params J.null) c.backend).1 },
      )

  -- The frames that are due for what the task receives.
  unfoldable pub task_frames :
      List (Option (Notification J.Value C)) → Client Σ → List J.Value × Client Σ
  task_frames [] c = ([], c)
  task_frames (none ∷ rs) c = task_frames rs (record c { feed = lose c.feed })
  task_frames (some n ∷ rs) c =
      let (fs, c') = task_frames rs c in
      (if wants c.feed (method_of n) then announcement (method_of n) (params_of n) ∷ fs else fs, c')

  abbrev pub then_frame : List J.Value × Client Σ → J.Value → List J.Value × Client Σ
  then_frame (fs, c) v = (fs ++ v ∷ [], c)

  -- A subscription holds from before its response on.
  unfoldable pub line_frames :
      String → List (Option (Notification J.Value C)) → Client Σ → List J.Value × Client Σ
  line_frames text meanwhile c = elim (R.decode (trim text)) [
    | unknown e ↦ then_frame (task_frames meanwhile c) (failure J.null 32700 (concat "parse: " e))
    | parsed req ↦ let (v, c') = request_frame req c in then_frame (task_frames meanwhile c') v
  ]

  unfoldable pub frame : Event J.Value C → Client Σ → List J.Value × Client Σ
  frame (line text meanwhile) c =
      if c.reading then line_frames text meanwhile c else task_frames meanwhile c
  frame (read_failed e) c = ([], record c { reading = false })
  frame end_of_input c = ([], record c { reading = false })
  frame (received n) c = task_frames (some n ∷ []) c
  frame receive_failed c = task_frames (none ∷ []) c

  unfoldable pub frames : List (Event J.Value C) → Client Σ → List J.Value
  frames [] c = []
  frames (e ∷ es) c = (frame e c).0 ++ frames es (frame e c).1

  -- A frame to a line.
  unfoldable pub lines : List J.Value → String
  lines [] = ""
  lines (v ∷ vs) = concat (concat (R.encode v) "\n") (lines vs)
