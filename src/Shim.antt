-- ===== src/Shim.antt =====
-- crates/mail-mcp-stdio/src/main.rs: the shim that forwards lines of stdio to the server over HTTP.
--
-- `send` is reqwest's post with a bearer token, up to the text of the answer; `encode` prints a JSON
-- value and `reason` a status code. A failing write to stdout is not modelled.
pub mod Forwarding
use Prim.Native.String.{◌++◌}
use mail_mcp.Base.{
  ℕ, Bool, String, Option, none, some, List, [], ◌∷◌, Error, Result, ok, err, if◌then◌else◌, ◌==◌,
  leb, ◌&&◌,
}
use mail_mcp.Base.State.{M}
use mail_mcp.Base.Texts.{trim, trim_end}
use mail_mcp.Json.{Json}
use mail_mcp.Ipc.Messages.{McpEndpointInfo}

-- What the server answers: the status code and the body.
pub record Answer : Type 0 where
  pub status : ℕ
  pub body : String

-- `status.is_success()`
unfoldable pub is_success : ℕ → Bool
is_success status = leb 200 status && leb status 299

module _ (J : Json) (negative : ℕ → J.Value) (encode : J.Value → String) (reason : ℕ → String) where
  -- `synth`
  unfoldable pub synth : Answer → J.Value
  synth a = J.object (
      ("jsonrpc", J.string "2.0")
      ∷ ("id", J.null)
      ∷ (
        "error",
        J.object (
            ("code", negative 32099)
            ∷ ("message", J.string ("daemon http " ++ (reason a.status ++ (": " ++ a.body))))
            ∷ []),
      )
      ∷ [])

  -- The line that is written for an answer.
  unfoldable pub line_of : Answer → String
  line_of a = if is_success a.status then trim_end a.body else encode (synth a)

  module _ {S : Type 0} (send : (url token body : String) → M S Answer)
      (info : McpEndpointInfo) where
    abbrev pub Outputs : Type 0
    Outputs = (Result (Unit {0}) × List String) × S

    abbrev pub and_then_output : String → Outputs → Outputs
    and_then_output line ((r, lines), st) = ((r, line ∷ lines), st)

    -- The loop of `main` over the lines of stdin, a read of which may fail: what it returns, and the
    -- lines that it writes.
    unfoldable pub forward : List (Result String) → S → Outputs
    forward [] st = ((ok tt, []), st)
    forward (err e ∷ rest) st = ((err e, []), st)
    forward (ok line ∷ rest) st =
        let skipped = forward rest st in
        let (r, st') = send info.url info.bearer_token line st in
        let later = forward rest st' in
        if trim line == ""
        then skipped
        else elim r [ err e ↦ ((err e, []), st') | ok a ↦ and_then_output (line_of a) later ]
