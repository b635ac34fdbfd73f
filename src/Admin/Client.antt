-- ===== src/Admin/Client.antt =====
-- crates/mail-mcp-admin/src/ipc_client.rs: the client's end of an IPC connection.
--
-- What `read_line` will yield is a list, and the end of the list is the end of the input. Errors of
-- anyhow are their texts. `Replies` is what serde reads of a response.
use Prim.Native.String.{◌++◌}
use mail_mcp.Base.{
  ℕ, ◌+◌, ◌%◌, ◌^◌, Bool, false, String, Option, none, some, List, [], ◌∷◌, Result, ok, err,
  display, Parsed, parsed, unknown, if◌then◌else◌, same, nat_key,
}
use mail_mcp.Base.Texts.{trim}
use mail_mcp.Json.{Json}
use mail_mcp.Oauth.{ℤ}
use mail_mcp.Ipc.Server.{Socket}

pub data Anyhow (A : Type 0) : Type 0 where
  failed : String → Anyhow A
  done : A → Anyhow A

pub record RespErr : Type 0 where
  pub code : ℤ
  pub message : String

-- `Resp`; a `result` that is null is read as none.
pub record Resp (V : Type 0) : Type 0 where
  pub id : V
  pub result : Option V
  pub error : Option RespErr

pub record Replies (V : Type 0) : Type 0 where
  pub decode : String → Parsed (Resp V)
  pub encode : V → String
  pub value : String → Parsed V
  pub decimal : ℤ → String

pub record IpcClient (Tx : Type 0) : Type 0 where
  pub reader : List (Anyhow String)
  pub writer : Tx
  pub next_id : ℕ

module _ (J : Json) (R : Replies J.Value) where
  -- `resp.id.as_u64() == Some(id)`
  unfoldable pub is_reply : ℕ → Resp J.Value → Bool
  is_reply id resp = elim (J.as_u64 resp.id) [ none ↦ false | some n ↦ same n id ]

  -- What a response under the request's id is worth.
  unfoldable pub verdict : Option RespErr → Option J.Value → Anyhow J.Value
  verdict (some e) result = failed ("daemon error (" ++ (R.decimal e.code ++ ("): " ++ e.message)))
  verdict none (some v) = done v
  verdict none none = failed "response missing result"

  -- The loop of `call`, and what it leaves to be read.
  unfoldable pub await_response : ℕ → List (Anyhow String) → Anyhow J.Value × List (Anyhow String)
  await_response id [] = (failed "daemon closed connection", [])
  await_response id (failed e ∷ rest) = (failed e, rest)
  await_response id (done buf ∷ rest) =
      let later = await_response id rest in
      elim (R.decode (trim buf)) [
        | unknown e ↦ (failed e, rest)
        | parsed resp ↦ if is_reply id resp then (verdict resp.error resp.result, rest) else later
      ]

  -- `line` in `call`
  unfoldable pub request_line : ℕ → String → J.Value → String
  request_line id method params =
      R.encode (
        J.object (
          ("jsonrpc", J.string "2.0")
          ∷ ("id", J.number id)
          ∷ ("method", J.string method)
          ∷ ("params", params)
          ∷ []))
      ++ "\n"

  module _ (K : Socket) where
    abbrev pub Calls : Type 0 → Type 0
    Calls A = IpcClient K.Tx → Anyhow A × IpcClient K.Tx

    -- The end of `call`, once the request has been written.
    unfoldable pub after_write : ℕ → Result (Unit {0}) → Calls J.Value
    after_write id (err e) c = (failed (display e), c)
    after_write id (ok _) c =
        let (r, rest) = await_response id c.reader in (r, record c { reader = rest })

    -- `call`; `next_id` is a u64.
    unfoldable pub call : String → J.Value → Calls J.Value
    call method params c =
        let (w, tx) = K.write_all (request_line c.next_id method params) c.writer in
        after_write c.next_id w (record c { writer = tx; next_id = (c.next_id + 1) % 2 ^ 64 })

    -- `read_notification`
    unfoldable pub read_notification : Calls J.Value
    read_notification c = elim c.reader [
      | [] ↦ (failed "daemon closed connection", c)
      | failed e ∷ rest ↦ (failed e, record c { reader = rest })
      | done buf ∷ rest ↦ (
        elim (R.value (trim buf)) [ unknown e ↦ failed e | parsed v ↦ done v ],
        record c { reader = rest },
      )
    ]
