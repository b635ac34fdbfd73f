-- ===== src/Examples/Renewing.antt =====
-- Operations of both providers with an access token that the server does not know any more.
use mail_mcp.Base.{
  some, Option, ◌≡◌, ℕ, refl, String, none, List, [], ◌∷◌, Result, ok, err, http, parsed, leb,
  if◌then◌else◌,
}
use mail_mcp.Mail.Operation.{Operation, list_labels, trash, perform_all}
use mail_mcp.Gmail.Compose.{MessageBuilder}
use mail_mcp.Gmail.Provider as Gmail
use mail_mcp.M365.Provider as M365
use mail_mcp.AuthClient.Requests.{Reqwest, Meeting, Counted, rest_client}
use mail_mcp.AuthClient.Keychain.{IsPolite, IsInKeychain, perform_all-get}
use mail_mcp.Secrets
use mail_mcp.Secrets.{refresh_token}
use mail_mcp.Examples.Instances.{ulid}
use mail_mcp.Examples.Keychain.{ring}
use mail_mcp.Examples.Documents.{Doc, json, null}
use mail_mcp.Examples.Tokens.{seconds, client, turn, server, start}

abbrev reqwest : Reqwest Doc ℕ
reqwest = record {
  http = server;
  get = λ url. url;
  post = λ url body. url;
  put = λ url body. url;
  patch = λ url body. url;
  delete = λ url. url;
  error_for_status = λ status. if leb 400 status then err (http "status") else ok status;
  json = λ status. ok null;
}

abbrev meets : ℕ → Meeting seconds ℕ
meets n = record { first = turn 100; second = turn 110; refused = 105 }

polite : (now : ℕ) → IsPolite "RT-1" (turn now)
polite now = record {
  undisturbed = record { kept_answer = λ st. refl; kept_stored = λ st. refl };
  checked = λ st h. h;
  done = λ st h. h;
}

abbrev pub builder : MessageBuilder
builder = record {
  Builder = List String;
  Bytes = List String;
  start = [];
  from = λ a b. a ∷ b;
  to = λ as' b. b;
  cc = λ as' b. b;
  bcc = λ as' b. b;
  subject = λ s b. s ∷ b;
  text_body = λ s b. s ∷ b;
  html_body = λ s b. s ∷ b;
  in_reply_to = λ s b. s ∷ b;
  write_to_vec = λ b. parsed b;
}

-- The bodies of the answers have nothing in them.
abbrev unreadable : {A : Type 0} → Doc → Result A
unreadable v = err (http "missing field")

abbrev pub gmail_reading : Gmail.Reading json builder
gmail_reading = record {
  message = unreadable;
  thread = unreadable;
  threads = λ v. ok (record { threads = []; next_page_token = none });
  labels = λ v. ok [];
  modify = λ req. null;
  shapes = record {
    draft_payload = λ d. null;
    id_of = unreadable;
    draft_ids = λ v. ok [];
    draft_detail = unreadable;
  };
  b64url = λ b. "";
  urlencode = λ s. s;
  decimal = λ n. "";
  decode64 = λ s. none;
  from_rfc2822 = λ s. none;
  from_millis = λ s. none;
  clock = 0;
  now = λ id. 0;
}

abbrev graph_reading : M365.Reading json
graph_reading = record {
  message = unreadable;
  messages = λ v. ok (record { value = []; next_link = none });
  folders = λ v. ok [];
  categories = λ v. ok [];
  drafts = λ v. ok [];
  created = unreadable;
  urlencode = λ s. s;
  decimal = λ n. "";
  parse_date = λ s. none;
  now = λ id. 0;
}

abbrev some_operations : List Operation
some_operations = list_labels ∷ trash ("m" ∷ []) ∷ []

abbrev begun : Counted seconds ℕ
begun = record { state = start 200; sends = 0 }

abbrev keychain : String → String → Option String
keychain service user = some "RT-1"

writable :
    (rt : String) (k : String → String → Option String)
    → (Secrets.set ring ulid 1 refresh_token rt k).0 ≡ ok tt
unfolding Secrets.set
writable rt k = refl

in_keychain : Secrets.get ring ulid 1 refresh_token keychain ≡ ok (some "RT-1")
unfolding Secrets.get Secrets.get_answer
in_keychain = refl

perform_all-get_example :
    IsInKeychain ring ulid 1 keychain
      (perform_all
        (Gmail.with_base json builder gmail_reading
          (rest_client reqwest client meets)
          "https://g"
          "a@example.com")
        some_operations
        begun).state
    × IsInKeychain ring ulid 1 keychain
        (perform_all
          (M365.with_base json graph_reading (rest_client reqwest client meets) "https://g")
          some_operations
          begun).state
perform_all-get_example =
    perform_all-get "RT-1" json reqwest client meets refl (λ n. polite 100) (λ n. polite 110) ring
      ulid 1 keychain builder gmail_reading graph_reading "https://g" "a@example.com"
      some_operations begun writable in_keychain refl refl
