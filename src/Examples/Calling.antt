-- ===== src/Examples/Calling.antt =====
-- A client that asks for the status while the pause flag is announced.
use mail_mcp.Base.{
  ◌≡◌, refl, String, Option, none, some, List, [], ◌∷◌, Bool, true, false, Result, ok, parsed,
  unknown, if◌then◌else◌, ◌==◌, nat_key,
}
use mail_mcp.Base.Texts.{split_once, split, trim, trim_start, trim_end, is_whitespace}
use mail_mcp.Base.State.{M}
use mail_mcp.Ipc.Messages.{mcp_paused_changed}
use mail_mcp.Ipc.Server.{
  Wire, Event, line, received, receive_failed, Conn, serve_conn, response_value, result_value,
  error_value, notification_value, notification_to_method_and_params, respond,
}
use mail_mcp.Admin.Client.{done, Replies, request_line, call}
use mail_mcp.Admin.Agreement.{Agree, read_lines}
use mail_mcp.Admin.Exchange.{outcome, call-handle}
use mail_mcp.Examples.Documents.{Doc, json, null}
use mail_mcp.Examples.Registering.{codec}
use mail_mcp.Examples.Connecting.{socket}

calling : Unit {0}
unfolding split_once split trim trim_start trim_end is_whitespace request_line response_value
    result_value error_value notification_value notification_to_method_and_params respond outcome
    nat_key
calling = tt

-- A notification, a request and a response have a letter each.
abbrev letter_of : (id method : Option Doc) → String
letter_of none method = "n"
letter_of (some _) none = "a"
letter_of (some _) (some _) = "r"

abbrev letter : Doc → String
letter v = letter_of (json.get v "id") (json.get v "method")

abbrev wire : Wire json codec
wire = record {
  decode = λ s. parsed (record { id = json.number 1; method = "status"; params = some null });
  encode = letter;
  negative = λ n. json.number n;
  tagged = λ n. ok null;
  texts = λ v. none;
}

abbrev replies : Replies Doc
replies = record {
  decode = λ s.
      if s == "a"
      then parsed (record { id = json.number 1; result = some (json.string "fine"); error = none })
      else parsed (record { id = null; result = none; error = none });
  encode = letter;
  value = λ s. unknown s;
  decimal = λ n. "";
}

abbrev never_null : Doc → Bool
never_null v = false

abbrev fine : Result Doc
fine = ok (json.string "fine")

letter_of-one_line : (id method : Option Doc) → split_once 10 (letter_of id method) ≡ none
unfolding calling
letter_of-one_line none method = refl
letter_of-one_line (some _) none = refl
letter_of-one_line (some _) (some _) = refl

agree : Agree json codec wire replies never_null 1 "status" null fine
unfolding calling
agree = record {
  same_encode = λ v. refl;
  one_line = λ v. letter_of-one_line (json.get v "id") (json.get v "method");
  as_u64-number = refl;
  as_u64-null = refl;
  decode-request = refl;
  decode-success = λ v h. cc;
  decode-failure = λ e h. cc;
  decode-notification = λ name v. refl;
}

abbrev answers : String → Doc → M (Unit {0}) Doc
answers method params s = (fine, s)

abbrev server : Conn String (Unit {0})
server = record {
  subscribed = "mcp.paused_changed" ∷ [];
  fanout_started = true;
  forwarding = true;
  ended = none;
  writer = "";
  backend = tt;
}

abbrev exchange : List (Event Doc codec)
exchange =
    received (mcp_paused_changed true)
    ∷ line (request_line json replies 1 "status" null) (some (mcp_paused_changed false) ∷ [])
    ∷ receive_failed
    ∷ []

abbrev written : String
written = (serve_conn json codec wire socket answers exchange server).writer

call-handle_example :
    (call json replies socket "status" null
      (record { reader = read_lines written; writer = ""; next_id = 1 })).0
    ≡ done (json.string "fine")
unfolding calling
call-handle_example =
    call-handle json codec wire replies never_null answers 1 "status" null fine agree socket socket
      (received (mcp_paused_changed true) ∷ []) (receive_failed ∷ [])
      (some (mcp_paused_changed false) ∷ []) server (read_lines written) "" (tt, tt)
      (record { opened = tt; started = λ e. e }) refl refl tt refl refl refl
