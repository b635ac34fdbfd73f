-- ===== src/Dispatch/Args.antt =====
-- dispatch.rs: how the arguments of a tool call are read.
use Prim.Native.String.{◌++◌}
use mail_mcp.Base.{
  ℕ, ◌%◌, ◌^◌, Bool, true, String, Option, none, List, [], map, filter_map, Result, provider, ok_or,
  unwrap_or, and_then, map_err, ◌>>=◌,
}
use mathlib.Core.Option
use mail_mcp.Base.Ids.{AccountId, MessageId, Ulid}
use mail_mcp.Json.{Json}
use mail_mcp.Mail.Types.{EmailAddress, SearchQuery, DraftInput, OutgoingMessage}

-- The arguments of `create_draft` and `send_message`.
pub record SendArgs : Type 0 where
  pub account_id : String
  pub to : List String
  pub cc : List String
  pub bcc : List String
  pub subject : String
  pub body_text : Option String
  pub body_html : Option String
  pub in_reply_to : Option String
  pub thread_id : Option String

-- The arguments of `update_draft`.
pub record UpdateArgs : Type 0 where
  pub draft_id : String
  pub to : List String
  pub cc : List String
  pub bcc : List String
  pub subject : String
  pub body_text : Option String
  pub body_html : Option String

unfoldable pub addrs : List String → List EmailAddress
addrs v = map (λ s. record { email = s; name = none }) v

-- The `DraftInput` that `create_draft` and `convert_send_to_draft` build.
unfoldable pub draft_of_send : SendArgs → DraftInput
unfolding addrs
draft_of_send s = record {
  to = addrs s.to;
  cc = addrs s.cc;
  bcc = addrs s.bcc;
  subject = s.subject;
  body_text = s.body_text;
  body_html = s.body_html;
  in_reply_to = s.in_reply_to;
  thread_id = s.thread_id;
}

-- The `OutgoingMessage` that `send_message` builds.
unfoldable pub outgoing_of_send : SendArgs → OutgoingMessage
unfolding addrs
outgoing_of_send s = record {
  to = addrs s.to;
  cc = addrs s.cc;
  bcc = addrs s.bcc;
  subject = s.subject;
  body_text = s.body_text;
  body_html = s.body_html;
  in_reply_to = s.in_reply_to;
  thread_id = s.thread_id;
}

-- The `DraftInput` that `update_draft` builds.
unfoldable pub draft_of_update : UpdateArgs → DraftInput
unfolding addrs
draft_of_update s = record {
  to = addrs s.to;
  cc = addrs s.cc;
  bcc = addrs s.bcc;
  subject = s.subject;
  body_text = s.body_text;
  body_html = s.body_html;
  in_reply_to = none;
  thread_id = none;
}

module _ (J : Json) where
  -- `args.get(key).and_then(|v| v.as_str())`
  unfoldable pub str_arg : J.Value → String → Option String
  str_arg args key = and_then (J.get args key) J.as_str

  -- `args.get(key).and_then(|v| v.as_bool()).unwrap_or(true)`
  unfoldable pub flag_arg : J.Value → String → Bool
  flag_arg args key = unwrap_or (and_then (J.get args key) J.as_bool) true

  -- `args.get("message_ids")`: the texts of the array, empty if there is none.
  unfoldable pub message_ids : J.Value → List MessageId
  message_ids args =
      unwrap_or (Option.map (filter_map J.as_str) (and_then (J.get args "message_ids") J.as_array))
        []

  -- `args.get("limit").and_then(|v| v.as_u64()).map(|n| n as u32)`
  unfoldable pub limit_arg : J.Value → Option ℕ
  limit_arg args = Option.map (λ n. n % 2 ^ 32) (and_then (J.get args "limit") J.as_u64)

  -- The query of the `search` tool.
  unfoldable pub search_query : J.Value → SearchQuery
  unfolding str_arg limit_arg
  search_query args = record {
    text = str_arg args "query";
    folder = str_arg args "folder_id";
    label = str_arg args "label_id";
    limit = limit_arg args;
    cursor = str_arg args "cursor";
  }

  unfoldable pub parse_account_id : Ulid → J.Value → Result AccountId
  parse_account_id U args = do
    s ← ok_or (str_arg args "account_id") (provider "missing account_id")
    map_err (U.from_str s) (λ e. provider ("bad account_id: " ++ e))
