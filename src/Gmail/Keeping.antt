-- ===== src/Gmail/Keeping.antt =====
-- What every request to Gmail keeps, every operation of the provider keeps.
use mail_mcp.Base.{ℕ, String, Option, some, List, [], ◌∷◌, Result}
use mail_mcp.Json.{Json}
use mail_mcp.Base.Ids.{MessageId, ThreadId, DraftId}
use mail_mcp.Base.Keeps.{Keeps, bind-Keeps, lift-Keeps, pure-Keeps}
use mail_mcp.Base.State.{lift}
use mail_mcp.Mail.Types.{Message, DateTime, SearchQuery, DraftInput, OutgoingMessage}
use mail_mcp.Mail.Client.{RestClient}
use mail_mcp.Mail.Keeping.{IsKept, IsKeeping, fetch-Keeps}
use mail_mcp.Gmail.Triage.{
  ModifyRequest, modify_one, modify_all, mark_read, star, label, move_to, archive,
}
use mail_mcp.Gmail.Trash.{post_all, trash, untrash}
use mail_mcp.Gmail.Labels.{RawLabel, fetch_labels, list_labels, list_folders}
use mail_mcp.Gmail.Messages.{
  ThreadStub, ThreadsList, ThreadFull, get_thread_full, decode_all, summaries, search, get_message,
}
use mail_mcp.Gmail.Compose.{
  MessageBuilder, Shapes, build_mime, input_of, post_for_id, create_draft, update_draft,
  send_message, send_draft, fetch_drafts, list_drafts,
}
use mail_mcp.Gmail.Provider.{Reading, with_base}

module _ {V S : Type 0} {P : S → Type 0} (client : RestClient V S) (h : IsKept P client)
    (base : String) where
  modify_one-Keeps :
      (body : ModifyRequest → V) (id : MessageId) (req : ModifyRequest)
      → Keeps P (modify_one client body base id req)
  unfolding modify_one
  modify_one-Keeps body id req =
      bind-Keeps (client.post_json _ (body req)) _ (h.post_json _ (body req)) (λ _. pure-Keeps tt)

  modify_all-Keeps :
      (body : ModifyRequest → V) (ids : List MessageId) (req : ModifyRequest)
      → Keeps P (modify_all client body base ids req)
  unfolding modify_all
  modify_all-Keeps body [] req = pure-Keeps tt
  modify_all-Keeps body (id ∷ ids) req =
      bind-Keeps (modify_one client body base id req) _ (modify_one-Keeps body id req)
        (λ _. modify_all-Keeps body ids req)

  fetch_labels-Keeps :
      (decode : V → Result (List RawLabel)) → Keeps P (fetch_labels client decode base)
  unfolding fetch_labels
  fetch_labels-Keeps decode = fetch-Keeps client h decode _

  module _ {Raw : Type 0} (decode : Raw → Result Message)
      (read_thread : V → Result (ThreadFull Raw)) where
    get_thread_full-Keeps :
        (id : ThreadId) → Keeps P (get_thread_full client base decode read_thread id)
    unfolding get_thread_full
    get_thread_full-Keeps id = bind-Keeps _ _ (fetch-Keeps client h read_thread _) λ raw.
        bind-Keeps (lift (decode_all decode raw.messages)) _
          (lift-Keeps (decode_all decode raw.messages)) (λ messages. pure-Keeps _)

    summaries-Keeps :
        (stubs : List ThreadStub) → Keeps P (summaries client base decode read_thread stubs)
    unfolding summaries
    summaries-Keeps [] = pure-Keeps []
    summaries-Keeps (stub ∷ stubs) =
        bind-Keeps (get_thread_full client base decode read_thread stub.id) _
          (get_thread_full-Keeps stub.id)
          λ thread. bind-Keeps (lift _) _ (lift-Keeps _) λ newest.
            bind-Keeps (summaries client base decode read_thread stubs) _ (summaries-Keeps stubs)
              (λ rest. pure-Keeps _)

    search-Keeps :
        (read_list : V → Result ThreadsList) (urlencode : String → String) (decimal : ℕ → String)
        (q : SearchQuery)
        → Keeps P (search client base decode read_thread read_list urlencode decimal q)
    unfolding search
    search-Keeps read_list urlencode decimal q =
        bind-Keeps _ _ (fetch-Keeps client h read_list _) λ list.
          bind-Keeps (summaries client base decode read_thread list.threads) _
            (summaries-Keeps list.threads) (λ threads. pure-Keeps _)

    get_message-Keeps :
        (read : V → Result Raw) (id : MessageId)
        → Keeps P (get_message client base decode read_thread read id)
    unfolding get_message
    get_message-Keeps read id =
        bind-Keeps _ _ (fetch-Keeps client h read _) (λ raw. lift-Keeps (decode raw))

module _ (J : Json) (B : MessageBuilder) (b64url : B.Bytes → String) (Z : Shapes J.Value)
    {S : Type 0} {P : S → Type 0} (client : RestClient J.Value S) (h : IsKept P client)
    (base : String) where
  post_all-Keeps :
      (action : String) (ids : List MessageId) → Keeps P (post_all J client base action ids)
  unfolding post_all
  post_all-Keeps action [] = pure-Keeps tt
  post_all-Keeps action (id ∷ ids) =
      bind-Keeps (client.post_json _ _) _ (h.post_json _ _) (λ _. post_all-Keeps action ids)

  post_for_id-Keeps :
      (url : String) (body : J.Value) → Keeps P (post_for_id J B b64url Z client base url body)
  unfolding post_for_id
  post_for_id-Keeps url body =
      bind-Keeps (client.post_json url body) _ (h.post_json url body) λ resp.
        bind-Keeps (lift (client.json resp)) _ (lift-Keeps (client.json resp))
          (λ v. lift-Keeps (Z.id_of v))

  create_draft-Keeps :
      (input : DraftInput) (from : Option String)
      → Keeps P (create_draft J B b64url Z client base input from)
  unfolding create_draft
  create_draft-Keeps input from =
      bind-Keeps (lift (build_mime B input from)) _ (lift-Keeps (build_mime B input from))
        (λ mime. post_for_id-Keeps _ _)

  update_draft-Keeps :
      (id : DraftId) (input : DraftInput) (from : Option String)
      → Keeps P (update_draft J B b64url Z client base id input from)
  unfolding update_draft
  update_draft-Keeps id input from =
      bind-Keeps (lift (build_mime B input from)) _ (lift-Keeps (build_mime B input from))
        λ mime. bind-Keeps (client.put_json _ _) _ (h.put_json _ _) (λ resp. pure-Keeps tt)

  send_message-Keeps :
      (m : OutgoingMessage) (from : Option String)
      → Keeps P (send_message J B b64url Z client base m from)
  unfolding send_message
  send_message-Keeps m from =
      bind-Keeps (lift (build_mime B (input_of m) from)) _
        (lift-Keeps (build_mime B (input_of m) from)) (λ mime. post_for_id-Keeps _ _)

  module _ (parse_date : String → Option DateTime) (now : DraftId → DateTime) where
    fetch_drafts-Keeps :
        (ids : List String) → Keeps P (fetch_drafts J B b64url Z client base parse_date now ids)
    unfolding fetch_drafts
    fetch_drafts-Keeps [] = pure-Keeps []
    fetch_drafts-Keeps (id ∷ ids) = bind-Keeps _ _ (fetch-Keeps client h Z.draft_detail _) λ detail.
        bind-Keeps (fetch_drafts J B b64url Z client base parse_date now ids) _
          (fetch_drafts-Keeps ids) (λ rest. pure-Keeps _)

    list_drafts-Keeps : Keeps P (list_drafts J B b64url Z client base parse_date now)
    unfolding list_drafts
    list_drafts-Keeps =
        bind-Keeps _ _ (fetch-Keeps client h Z.draft_ids _) (λ ids. fetch_drafts-Keeps ids)

-- A property of the remote side that every request keeps is kept by every operation of the
-- provider, on success and on each error.
pub with_base-IsKeeping :
    (J : Json) (B : MessageBuilder) (R : Reading J B) {S : Type 0} {P : S → Type 0}
    (client : RestClient J.Value S) (base user_email : String)
    → IsKept P client
    → IsKeeping P (with_base J B R client base user_email)
unfolding with_base mark_read star label move_to archive trash untrash list_labels list_folders
    send_draft
with_base-IsKeeping J B R client base user_email h = record {
  search = λ q. search-Keeps client h base _ R.thread R.threads R.urlencode R.decimal q;
  get_thread = λ id. get_thread_full-Keeps client h base _ R.thread id;
  get_message = λ id. get_message-Keeps client h base _ R.thread R.message id;
  list_folders =
      bind-Keeps _ _ (fetch_labels-Keeps client h base R.labels) (λ labels. pure-Keeps _);
  list_labels = bind-Keeps _ _ (fetch_labels-Keeps client h base R.labels) (λ labels. pure-Keeps _);
  list_drafts = list_drafts-Keeps J B R.b64url R.shapes client h base R.from_millis R.now;
  mark_read = λ ids read. modify_all-Keeps client h base R.modify ids _;
  star = λ ids starred. modify_all-Keeps client h base R.modify ids _;
  label = λ ids l on. modify_all-Keeps client h base R.modify ids _;
  move_to = λ ids folder. modify_all-Keeps client h base R.modify ids _;
  archive = λ ids. modify_all-Keeps client h base R.modify ids _;
  trash = λ ids. post_all-Keeps J B R.b64url R.shapes client h base "trash" ids;
  untrash = λ ids. post_all-Keeps J B R.b64url R.shapes client h base "untrash" ids;
  create_draft = λ d. create_draft-Keeps J B R.b64url R.shapes client h base d (some user_email);
  update_draft =
      λ id d. update_draft-Keeps J B R.b64url R.shapes client h base id d (some user_email);
  send_message = λ m. send_message-Keeps J B R.b64url R.shapes client h base m (some user_email);
  send_draft = λ id. post_for_id-Keeps J B R.b64url R.shapes client h base _ _;
}
