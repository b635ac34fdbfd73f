-- ===== src/Oauth/Loopback.antt =====
-- crates/mail-mcp-core/src/oauth/loopback.rs: the listener that waits for the browser's redirect.
--
-- What the listener accepts before its deadline is a list, in order; the end of the list is the
-- deadline. A connection is what one read of its socket yields: an I/O error, or the bytes, as a
-- text where they are UTF-8. Percent decoding is a crate's and a parameter. What is written back to
-- a connection is `response`; errors of that write are ignored in the source.
pub mod Query
pub mod Verdict
pub mod Callback
use Prim.Native.String.{◌++◌}
use mail_mcp.Base.{
  ℕ, Bool, true, false, not, String, Option, none, some, List, [], ◌∷◌, Result, ok, err, oauth,
  ◌>>=◌, unwrap_or, ◌==◌, if◌then◌else◌,
}
use mail_mcp.Base.Texts.{split_once, split, split_whitespace, first_line}

pub record CapturedCallback : Type 0 where
  pub code : String

-- The local variables of `handle_one` that the loop over the query fills.
pub record Params : Type 0 where
  pub code : Option String
  pub state : Option String
  pub error : Option String

abbrev pub no_params : Params
no_params = record { code = none; state = none; error = none }

abbrev pub Read : Type 0
Read = Result (Option String)

pub data Accept : Type 0 where
  failed : String → Accept
  connected : Read → Accept

unfoldable pub set_param : String → String → Params → Params
set_param k v p =
    if k == "code"
    then record p { code = some v }
    else if k == "state"
    then record p { state = some v }
    else if k == "error"
    then record p { error = some v }
    else p

-- The query of the request line.
unfoldable pub query : String → String
query req = elim (split_whitespace (first_line req)) [
  | _ ∷ target ∷ _ ↦ elim (split_once b'?' target) [ none ↦ "" | some (_, q) ↦ q ]
  | _ ↦ ""
]

-- `state.as_deref() == Some(expected_state)`
unfoldable pub state_matches : String → Params → Bool
state_matches expected p = elim p.state [ none ↦ false | some s ↦ s == expected ]

-- The status and the body that are written back.
unfoldable pub response : String → Params → String × String
response expected p = elim p.error [
  | some e ↦ ("400 Bad Request", "OAuth error: " ++ e ++ "\nYou can close this window.")
  | none ↦
      if not (state_matches expected p)
      then ("400 Bad Request", "OAuth state mismatch. You can close this window.")
      else elim p.code [
        | some _ ↦ ("200 OK", "Sign-in complete. You can close this window.")
        | none ↦ ("400 Bad Request", "Missing code parameter. You can close this window.")
      ]
]

-- The end of `handle_one`.
unfoldable pub verdict : String → Params → Result (Option CapturedCallback)
verdict expected p = elim p.error [
  | some e ↦ err (oauth ("provider returned error: " ++ e))
  | none ↦
      if not (state_matches expected p)
      then ok none
      else elim p.code [ some c ↦ ok (some (record { code = c })) | none ↦ ok none ]
]

module _ (percent_decode : String → String) where
  -- One round of the loop over the pairs.
  unfoldable pub key_value : String → String × String
  key_value pair = elim (split_once b'=' pair) [
    | none ↦ (pair, percent_decode "")
    | some (k, v) ↦ (k, percent_decode v)
  ]

  unfoldable pub set_params : List String → Params → Params
  set_params [] p = p
  set_params (pair ∷ pairs) p = let (k, v) = key_value pair in set_params pairs (set_param k v p)

  unfoldable pub params : String → Params
  params req = set_params (split b'&' (query req)) no_params

  -- `handle_one`
  unfoldable pub handle_one : String → Read → Result (Option CapturedCallback)
  handle_one expected read = do bytes ← read; verdict expected (params (unwrap_or bytes ""))

  -- `LoopbackListener::await_callback`
  unfoldable pub await_callback : String → List Accept → Result CapturedCallback
  await_callback expected [] = err (oauth "timed out waiting for browser callback")
  await_callback expected (failed e ∷ accepts) = err (oauth ("accept failed: " ++ e))
  await_callback expected (connected read ∷ accepts) =
      let rest = await_callback expected accepts in
      elim (handle_one expected read) [
        | err e ↦ err e
        | ok (some captured) ↦ ok captured
        | ok none ↦ rest
      ]
