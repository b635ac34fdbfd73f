-- ===== src/Examples/Searching.antt =====
-- A search of Graph that finds two messages of one conversation and one of another.
use mail_mcp.Base.{
  ℕ, false, ◌≡◌, refl, String, Option, none, some, [], ◌∷◌, filter, Result, ok, err, string_key,
}
use mail_mcp.Mail.Client.{RestClient, fetch}
use mail_mcp.Mail.Types.{SearchQuery, SearchResults}
use mail_mcp.M365.Parse.{RawMessage, decode}
use mail_mcp.M365.Messages.{ListResponse, build_search_url, summaries, search}
use mail_mcp.M365.Messages.Threads.{in_thread, representative, search-representative}

abbrev raw : (id conversation : String) → RawMessage
raw id conversation = record {
  id = id;
  conversation_id = conversation;
  subject = some "hi";
  body_preview = none;
  from = none;
  to_recipients = [];
  cc_recipients = [];
  bcc_recipients = [];
  categories = [];
  is_read = false;
  flag = none;
  is_draft = false;
  parent_folder_id = none;
  received_date_time = some "2026-01-01T00:00:00Z";
  body = none;
}

abbrev answer : ListResponse RawMessage
answer = record {
  value = raw "3" "a" ∷ raw "2" "b" ∷ raw "1" "a" ∷ [];
  next_link = some "https://next";
}

abbrev client : RestClient (ListResponse RawMessage) (Unit {0})
client = record {
  Response = Unit {0};
  get = λ url s. (ok tt, s);
  post_json = λ url v s. (ok tt, s);
  put_json = λ url v s. (ok tt, s);
  patch_json = λ url v s. (ok tt, s);
  delete = λ url s. (ok tt, s);
  json = λ r. ok answer;
}

abbrev any_date : String → Option ℕ
any_date s = some 0

abbrev same_text : String → String
same_text s = s

abbrev no_digits : ℕ → String
no_digits n = "25"

abbrev everything : SearchQuery
everything = record { text = none; folder = none; label = none; limit = none; cursor = none }

abbrev run_search : Result SearchResults × Unit {0}
run_search = search any_date client "b" same_text no_digits (λ v. ok v) everything tt

abbrev or_nothing : Result SearchResults → SearchResults
or_nothing (ok r) = r
or_nothing (err e) = record { threads = []; next_cursor = none }

search-representative_example :
    (resp : ListResponse RawMessage) × (fetch client
        (λ v. ok v)
        (build_search_url same_text no_digits "b" everything)
        tt
      ≡ (ok resp, tt))
    × ((c : String)
        → filter (in_thread any_date c) (or_nothing run_search.0).threads
          ≡ representative any_date c resp.value)
    × ((or_nothing run_search.0).next_cursor ≡ resp.next_link)
unfolding search summaries decode
search-representative_example =
    search-representative any_date client "b" same_text no_digits (λ v. ok v) everything tt tt
      (or_nothing run_search.0) refl
