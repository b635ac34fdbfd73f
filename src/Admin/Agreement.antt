-- ===== src/Admin/Agreement.antt =====
-- What is assumed of serde_json and of `read_line` where a client reads what a server writes.
use Prim.Native.String.{◌++◌ as concat}
use mail_mcp.Base.{
  ℕ, ◌-◌, ◌≡◌, Bool, String, none, some, List, [], ◌∷◌, map, Error, Result, ok, err, display,
  parsed, if◌then◌else◌, ◌==◌, nat_key,
}
use mail_mcp.Base.Texts.{trim, split, split_once}
use mail_mcp.Json.{Json}
use mail_mcp.Accounts.{Codec}
use mail_mcp.Oauth.{ℤ, negsuc}
use mail_mcp.Ipc.Server.{Wire, error_code}
use mail_mcp.Admin.Client.{Anyhow, done, Replies}

-- The lines of a text as `read_line` yields them, without their ends: what follows the last newline
-- is a line only if it is not empty.
unfoldable pub drop_empty_end : List String → List String
drop_empty_end [] = []
drop_empty_end (w ∷ []) = if w == "" then [] else w ∷ []
drop_empty_end (w ∷ v ∷ ws) = w ∷ drop_empty_end (v ∷ ws)

unfoldable pub read_lines : String → List (Anyhow String)
read_lines s = map done (drop_empty_end (split 10 s))

-- The code of an error on the wire.
abbrev pub negated : ℕ → ℤ
negated n = negsuc (n - 1)

-- What serde_json documents, at one request and its result: what `to_string` writes is on one line,
-- and `from_str` reads from it the keys that were written. A `result` that is null is read as none, and
-- an `id` that is missing as null.
pub record Agree (J : Json) (C : Codec) (W : Wire J C) (R : Replies J.Value)
    (is_null : J.Value → Bool) (id : ℕ) (method : String) (params : J.Value) (r : Result J.Value)
    : Type 0 where
  pub same_encode : (v : J.Value) → R.encode v ≡ W.encode v
  pub one_line : (v : J.Value) → split_once 10 (W.encode v) ≡ none
  pub as_u64-number : J.as_u64 (J.number id) ≡ some id
  pub as_u64-null : J.as_u64 J.null ≡ none
  pub decode-request :
      W.decode (
        trim (
          concat
            (R.encode (
              J.object (
                ("jsonrpc", J.string "2.0")
                ∷ ("id", J.number id)
                ∷ ("method", J.string method)
                ∷ ("params", params)
                ∷ [])))
            "\n"))
      ≡ parsed (record { id = J.number id; method = method; params = some params })
  pub decode-success :
      (v : J.Value)
      → r ≡ ok v
      → R.decode (
          trim (
            W.encode
              (J.object (("jsonrpc", J.string "2.0") ∷ ("id", J.number id) ∷ ("result", v) ∷ []))))
        ≡ parsed
            (record { id = J.number id; result = if is_null v then none else some v; error = none })
  pub decode-failure :
      (e : Error)
      → r ≡ err e
      → R.decode (
          trim (
            W.encode (
              J.object (
                ("jsonrpc", J.string "2.0")
                ∷ ("id", J.number id)
                ∷ (
                  "error",
                  J.object (
                      ("code", W.negative (error_code e)) ∷ ("message", J.string (display e)) ∷ []),
                )
                ∷ []))))
        ≡ parsed (record {
          id = J.number id;
          result = none;
          error = some (record { code = negated (error_code e); message = display e });
        })
  pub decode-notification :
      (method : String) (params : J.Value)
      → R.decode (
          trim (
            W.encode (
              J.object (
                ("jsonrpc", J.string "2.0")
                ∷ ("method", J.string method)
                ∷ ("params", params)
                ∷ []))))
        ≡ parsed (record { id = J.null; result = none; error = none })
