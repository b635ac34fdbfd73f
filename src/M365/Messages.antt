-- ===== src/M365/Messages.antt =====
-- crates/mail-mcp-core/src/providers/m365/messages.rs: search, threads and messages.
--
-- `urlencode` is the percent_encoding crate's, `decimal` the text of a number, and the readings of
-- the answers are what serde derives.
pub mod Threads
use Prim.Native.String.{◌++◌}
use mail_mcp.Base
use mail_mcp.Base.{
  ℕ, Bool, true, false, not, ◌||◌, String, Option, none, some, List, [], ◌∷◌, any, Result, ok, err,
  unwrap_or, if◌then◌else◌, ◌==◌,
}
use mail_mcp.Base.State.{M, ◌>>=◌, pure, lift}
use mail_mcp.Base.Ids.{MessageId, ThreadId}
use mail_mcp.Base.Texts.{strip_prefix}
use mail_mcp.Mail.Types.{DateTime, SearchQuery, ThreadSummary, SearchResults, MailThread, Message}
use mail_mcp.Mail.Client.{RestClient, fetch}
use mail_mcp.Gmail.Messages.{subject_of, decode_all}
use mail_mcp.M365.Parse.{RawMessage, decode}

pub record ListResponse (A : Type 0) : Type 0 where
  pub value : List A
  pub next_link : Option String

-- `starts_with`
unfoldable pub starts_with : String → String → Bool
starts_with prefix s = elim (strip_prefix prefix s) [ none ↦ false | some _ ↦ true ]

-- The summary of the thread that the message stands for.
unfoldable pub summary : Message → ThreadSummary
summary m = record {
  id = m.thread_id;
  last_message_id = m.id;
  subject = m.subject;
  snippet = m.snippet;
  from = m.from;
  date = m.date;
  message_count = 1;
  unread = not m.flags.read;
  starred = m.flags.starred;
  labels = m.labels;
  folder = m.folder;
}

module _ (urlencode : String → String) (decimal : ℕ → String) (base : String) where
  unfoldable pub text_part : Option String → String
  text_part none = ""
  text_part (some text) = "&$search=" ++ urlencode ("\"" ++ (text ++ "\""))

  unfoldable pub folder_part : Option String → String
  folder_part none = ""
  folder_part (some folder) = "&$filter=parentFolderId eq '" ++ (urlencode folder ++ "'")

  -- `build_search_url` without a cursor that is a URL
  unfoldable pub first_page : SearchQuery → String
  first_page q =
      base
      ++ ("/me/messages?$top="
          ++ (decimal (unwrap_or q.limit 25)
              ++ ("&$orderby=receivedDateTime desc" ++ (text_part q.text ++ folder_part q.folder))))

  -- `build_search_url`
  unfoldable pub build_search_url : SearchQuery → String
  build_search_url q = elim q.cursor [
    | none ↦ first_page q
    | some cursor ↦
        if starts_with "http://" cursor || starts_with "https://" cursor
        then cursor
        else first_page q
  ]

module _ (parse_date : String → Option DateTime) where
  -- The loop of `search_impl`, with the conversations that were seen.
  unfoldable pub summaries : (seen : List String) → List RawMessage → Result (List ThreadSummary)
  summaries seen [] = ok []
  summaries seen (raw ∷ raws) =
      let skipped = summaries seen raws in
      let rest = summaries (raw.conversation_id ∷ seen) raws in
      if any (λ c. c == raw.conversation_id) seen
      then skipped
      else Base.◌>>=◌ (decode parse_date raw)
          λ m. Base.◌>>=◌ rest λ threads. ok (summary m ∷ threads)

  module _ {V S : Type 0} (client : RestClient V S) (base : String) (urlencode : String → String)
      (decimal : ℕ → String) (read_list : V → Result (ListResponse RawMessage)) where
    -- `search_impl`
    unfoldable pub search : SearchQuery → M S SearchResults
    search q = do
      resp ← fetch client read_list (build_search_url urlencode decimal base q)
      threads ← lift (summaries [] resp.value)
      pure (record { threads = threads; next_cursor = resp.next_link })

    -- `get_thread_impl`
    unfoldable pub get_thread : ThreadId → M S MailThread
    get_thread id = do
      resp ← fetch client read_list (
          base
          ++ ("/me/messages?$filter=conversationId eq '"
              ++ (urlencode id ++ "'&$orderby=receivedDateTime asc&$top=200")))
      messages ← lift (decode_all (decode parse_date) resp.value)
      pure (record { id = id; subject = subject_of messages; messages = messages })

  -- `get_message_impl`
  unfoldable pub get_message :
      {V S : Type 0} → RestClient V S → String → (V → Result RawMessage) → MessageId → M S Message
  get_message client base read id = do
    raw ← fetch client read (base ++ ("/me/messages/" ++ id))
    lift (decode parse_date raw)
