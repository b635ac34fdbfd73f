-- ===== src/Gmail/Messages.antt =====
-- crates/mail-mcp-core/src/providers/gmail/messages.rs: search, threads and messages.
--
-- `Raw` is what serde decodes a message to, and `decode` what parse.rs makes of it; `urlencode` is the
-- percent_encoding crate's, `decimal` the text of a number.
use Prim.Native.String.{◌++◌}
use mail_mcp.Base.{
  ℕ, ◌%◌, ◌^◌, not, String, Option, none, some, List, [], ◌∷◌, length, Result, ok, err, Error,
  provider, ok_or,
}
use mail_mcp.Base
use mail_mcp.Base.State.{M, ◌>>=◌, pure, lift}
use mail_mcp.Base.Ids.{MessageId, ThreadId}
use mail_mcp.Mail.Types.{SearchQuery, ThreadSummary, SearchResults, MailThread, Message}
use mail_mcp.Mail.Client.{RestClient, fetch}

pub record ThreadStub : Type 0 where
  pub id : String

pub record ThreadsList : Type 0 where
  pub threads : List ThreadStub
  pub next_page_token : Option String

pub record ThreadFull (Raw : Type 0) : Type 0 where
  pub id : String
  pub messages : List Raw

-- A parameter of the query string, and the separator after it.
unfoldable pub push_param : Option String → (key : String) → String × String → String × String
push_param none key (url, sep) = (url, sep)
push_param (some value) key (url, sep) = (url ++ (sep ++ (key ++ value)), "&")

-- `Option::map`
abbrev pub map_option : {A B : Type 0} → (A → B) → Option A → Option B
map_option f none = none
map_option f (some a) = some (f a)

-- The URL of `search_impl`.
unfoldable pub search_url :
    (urlencode : String → String) → (decimal : ℕ → String) → (base : String) → SearchQuery → String
search_url urlencode decimal base q =
    (push_param q.cursor "pageToken=" (
      push_param (map_option decimal q.limit) "maxResults=" (
        push_param q.folder "labelIds=" (
          push_param q.label "labelIds="
            (push_param (map_option urlencode q.text) "q=" (base ++ "/users/me/threads", "?")))))).0

-- `messages.last()`
unfoldable pub last : List Message → Option Message
last [] = none
last (m ∷ []) = some m
last (_ ∷ m ∷ ms) = last (m ∷ ms)

-- `messages.first().map(|m| m.subject.clone()).unwrap_or_default()`
unfoldable pub subject_of : List Message → String
subject_of [] = ""
subject_of (m ∷ _) = m.subject

-- The summary of a thread.
unfoldable pub summary : MailThread → Message → ThreadSummary
summary thread last = record {
  id = thread.id;
  last_message_id = last.id;
  subject = thread.subject;
  snippet = last.snippet;
  from = last.from;
  date = last.date;
  message_count = length thread.messages % 2 ^ 32;
  unread = not last.flags.read;
  starred = last.flags.starred;
  labels = last.labels;
  folder = last.folder;
}

module _ {Raw : Type 0} (decode : Raw → Result Message) where
  -- The loop over the raw messages.
  unfoldable pub decode_all : List Raw → Result (List Message)
  decode_all [] = ok []
  decode_all (m ∷ ms) =
      Base.◌>>=◌ (decode m)
        λ message. Base.◌>>=◌ (decode_all ms) λ messages. ok (message ∷ messages)

module _ {V S Raw : Type 0} (client : RestClient V S) (base : String)
    (decode : Raw → Result Message) (read_thread : V → Result (ThreadFull Raw)) where
  -- `get_thread_full`
  unfoldable pub get_thread_full : ThreadId → M S MailThread
  get_thread_full id = do
    raw ← fetch client read_thread (base ++ ("/users/me/threads/" ++ id))
    messages ← lift (decode_all decode raw.messages)
    pure (record { id = id; subject = subject_of messages; messages = messages })

  -- The loop of `search_impl` over the stubs.
  unfoldable pub summaries : List ThreadStub → M S (List ThreadSummary)
  summaries [] = pure []
  summaries (stub ∷ stubs) = do
    thread ← get_thread_full stub.id
    newest ← lift (ok_or (last thread.messages) (provider "thread has no messages"))
    rest ← summaries stubs
    pure (summary thread newest ∷ rest)

  -- `search_impl`
  unfoldable pub search :
      (V → Result ThreadsList)
      → (urlencode : String → String) → (decimal : ℕ → String) → SearchQuery
      → M S SearchResults
  search read_list urlencode decimal q = do
    list ← fetch client read_list (search_url urlencode decimal base q)
    threads ← summaries list.threads
    pure (record { threads = threads; next_cursor = list.next_page_token })

  -- `get_message_impl`
  unfoldable pub get_message : (V → Result Raw) → MessageId → M S Message
  get_message read id = do
    raw ← fetch client read (base ++ ("/users/me/messages/" ++ (id ++ "?format=full")))
    lift (decode raw)
