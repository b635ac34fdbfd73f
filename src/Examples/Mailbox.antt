-- ===== src/Examples/Mailbox.antt =====
-- A stand-in for a provider, which logs the calls that it gets, and for what serde derives.
use mail_mcp.Base.{
  Bool, String, Option, none, some, List, [], ◌∷◌, filter_map, ok, Parsed, parsed, unknown,
  and_then, unwrap_or,
}
use mail_mcp.Base.State.{M}
use mail_mcp.Mail.Types.{Message}
use mail_mcp.Mail.Provider.{MailProvider}
use mail_mcp.Dispatch.Args.{SendArgs, UpdateArgs}
use mail_mcp.Dispatch.Execute.{Serde}
use mail_mcp.Examples.Documents.{Doc, json, null}

abbrev pub Log : Type 0
Log = List String

abbrev logs : {A : Type 0} → String → A → M Log A
logs name a log = (ok a, name ∷ log)

abbrev blank : Message
blank = record {
  id = "";
  thread_id = "";
  from = none;
  to = [];
  cc = [];
  bcc = [];
  subject = "";
  date = 0;
  body_text = none;
  body_html = none;
  labels = [];
  folder = none;
  flags = record { read = Bool.true; starred = Bool.false; draft = Bool.false };
  attachments = [];
  snippet = "";
}

abbrev pub mailbox : MailProvider Log
mailbox = record {
  search = λ q. logs "search" (record { threads = []; next_cursor = none });
  get_thread = λ id. logs "get_thread" (record { id = id; subject = ""; messages = [] });
  get_message = λ id. logs "get_message" blank;
  list_folders = logs "list_folders" [];
  list_labels = logs "list_labels" [];
  list_drafts = logs "list_drafts" [];
  mark_read = λ ids read. logs "mark_read" tt;
  star = λ ids on. logs "star" tt;
  label = λ ids label on. logs "label" tt;
  move_to = λ ids folder. logs "move_to" tt;
  archive = λ ids. logs "archive" tt;
  trash = λ ids. logs "trash" tt;
  untrash = λ ids. logs "untrash" tt;
  create_draft = λ d. logs "create_draft" "d-1";
  update_draft = λ id d. logs "update_draft" tt;
  send_message = λ m. logs "send_message" "m-1";
  send_draft = λ id. logs "send_draft" "m-1";
}

abbrev text_field : Doc → String → Option String
text_field d k = and_then (json.get d k) json.as_str

abbrev texts_field : Doc → String → List String
texts_field d k =
    unwrap_or
      (and_then (and_then (json.get d k) json.as_array) (λ ds. some (filter_map json.as_str ds))) []

abbrev read_send : Doc → Parsed SendArgs
read_send d = parsed (record {
  account_id = unwrap_or (text_field d "account_id") "";
  to = texts_field d "to";
  cc = texts_field d "cc";
  bcc = texts_field d "bcc";
  subject = unwrap_or (text_field d "subject") "";
  body_text = text_field d "body_text";
  body_html = text_field d "body_html";
  in_reply_to = text_field d "in_reply_to";
  thread_id = text_field d "thread_id";
})

abbrev read_update : Doc → Parsed UpdateArgs
read_update d = unknown "update_draft is not used"

abbrev pub serde : Serde json
serde = record {
  send_args = read_send;
  update_args = read_update;
  search_results = λ r. ok null;
  thread = λ t. ok null;
  message = λ m. ok null;
  folders = λ fs. ok null;
  labels = λ ls. ok null;
  drafts = λ ds. ok null;
}
