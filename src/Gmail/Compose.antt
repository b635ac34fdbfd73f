-- ===== src/Gmail/Compose.antt =====
-- crates/mail-mcp-core/src/providers/gmail/compose.rs: drafts, and messages that are sent.
--
-- The mail_builder crate is the interface `MessageBuilder`, `b64url` the base64 crate's encoding, and
-- `Shapes` what serde derives for the payloads and answers.
use Prim.Native.String.{◌++◌}
use mail_mcp.Base.{
  String, Option, none, some, List, [], ◌∷◌, map, find, Parsed, Result, map_err, and_then,
  unwrap_or, provider,
}
use mail_mcp.Base.State.{M, ◌>>=◌, pure, lift}
use mail_mcp.Base.Ids.{MessageId, DraftId, ThreadId}
use mail_mcp.Json.{Json}
use mail_mcp.Mail.Types.{DateTime, EmailAddress, DraftInput, DraftSummary, OutgoingMessage}
use mail_mcp.Mail.Client.{RestClient, fetch}
use mail_mcp.Gmail.Parse.{eq_lower}

pub record MessageBuilder : Type 1 where
  pub Builder : Type 0
  pub Bytes : Type 0
  pub start : Builder
  pub from : String → Builder → Builder
  pub to : List String → Builder → Builder
  pub cc : List String → Builder → Builder
  pub bcc : List String → Builder → Builder
  pub subject : String → Builder → Builder
  pub text_body : String → Builder → Builder
  pub html_body : String → Builder → Builder
  pub in_reply_to : String → Builder → Builder
  pub write_to_vec : Builder → Parsed Bytes

pub record RawHolder : Type 0 where
  pub raw : String
  pub thread_id : Option ThreadId

pub record DraftPayload : Type 0 where
  pub message : RawHolder

pub record DraftDetailHeader : Type 0 where
  pub name : String
  pub value : String

pub record DraftDetailMsg : Type 0 where
  pub id : String
  pub snippet : String
  pub internal_date : String
  -- The headers of the payload, if there is one.
  pub payload : Option (List DraftDetailHeader)

pub record DraftDetail : Type 0 where
  pub id : String
  pub message : DraftDetailMsg

-- The payload of a draft, and the readings of the id of an answer, of the ids of a list of drafts, and
-- of a draft.
pub record Shapes (V : Type 0) : Type 0 where
  pub draft_payload : DraftPayload → V
  pub id_of : V → Result String
  pub draft_ids : V → Result (List String)
  pub draft_detail : V → Result DraftDetail

module _ (B : MessageBuilder) where
  -- `if let Some(x) = .. { builder = f(x); }`
  unfoldable pub when_some :
      {A : Type 0} → (A → B.Builder → B.Builder) → Option A → B.Builder → B.Builder
  when_some f none builder = builder
  when_some f (some a) builder = f a builder

  -- `if !xs.is_empty() { builder = f(emails of xs); }`
  unfoldable pub when_any :
      (List String → B.Builder → B.Builder) → List EmailAddress → B.Builder → B.Builder
  when_any f [] builder = builder
  when_any f (a ∷ more) builder = f (map (λ x. x.email) (a ∷ more)) builder

  -- `build_mime`
  unfoldable pub build_mime : DraftInput → Option String → Result B.Bytes
  build_mime input from =
      map_err
        (B.write_to_vec (
          when_some B.in_reply_to input.in_reply_to (
            when_some B.html_body input.body_html (
              when_some B.text_body input.body_text (
                B.subject input.subject (
                  when_any B.bcc input.bcc (
                    when_any B.cc input.cc
                      (B.to (map (λ a. a.email) input.to) (when_some B.from from B.start)))))))))
        (λ e. provider ("mime build failed: " ++ e))

-- The `DraftInput` that `send_message_impl` builds.
unfoldable pub input_of : OutgoingMessage → DraftInput
input_of m = record {
  to = m.to;
  cc = m.cc;
  bcc = m.bcc;
  subject = m.subject;
  body_text = m.body_text;
  body_html = m.body_html;
  in_reply_to = m.in_reply_to;
  thread_id = m.thread_id;
}

-- `subject` in `list_drafts_impl`
unfoldable pub subject_in : Option (List DraftDetailHeader) → String
subject_in headers = elim (and_then headers (λ hs. find (λ h. eq_lower h.name "subject") hs)) [
  | none ↦ ""
  | some h ↦ h.value
]

module _ (J : Json) (B : MessageBuilder) (b64url : B.Bytes → String) (Z : Shapes J.Value)
    {S : Type 0} (client : RestClient J.Value S) (base : String) where
  -- The payload of a draft.
  unfoldable pub payload : DraftInput → B.Bytes → J.Value
  payload input mime =
      Z.draft_payload
        (record { message = record { raw = b64url mime; thread_id = input.thread_id } })

  -- `client.post_json(..).await?.error_for_status()?.json().await?`, and the id of the answer
  unfoldable pub post_for_id : String → J.Value → M S String
  post_for_id url body = do
    resp ← client.post_json url body
    v ← lift (client.json resp)
    lift (Z.id_of v)

  -- `create_draft_impl`
  unfoldable pub create_draft : DraftInput → Option String → M S DraftId
  create_draft input from = do
    mime ← lift (build_mime B input from)
    post_for_id (base ++ "/users/me/drafts") (payload input mime)

  -- `update_draft_impl`
  unfoldable pub update_draft : DraftId → DraftInput → Option String → M S (Unit {0})
  update_draft id input from = do
    mime ← lift (build_mime B input from)
    resp ← client.put_json (base ++ ("/users/me/drafts/" ++ id)) (payload input mime)
    pure tt

  -- `json!(..)` of an optional thread
  unfoldable pub thread_value : Option ThreadId → J.Value
  thread_value none = J.null
  thread_value (some t) = J.string t

  -- `send_message_impl`
  unfoldable pub send_message : OutgoingMessage → Option String → M S MessageId
  send_message m from = do
    mime ← lift (build_mime B (input_of m) from)
    post_for_id (base ++ "/users/me/messages/send")
        (J.object (("raw", J.string (b64url mime)) ∷ ("threadId", thread_value m.thread_id) ∷ []))

  -- `send_draft_impl`
  unfoldable pub send_draft : DraftId → M S MessageId
  send_draft id =
      post_for_id (base ++ "/users/me/drafts/send") (J.object (("id", J.string id) ∷ []))

  -- `parse_date` reads a text of milliseconds; `now` is what the clock shows at a draft.
  module _ (parse_date : String → Option DateTime) (now : DraftId → DateTime) where
    unfoldable pub summary_of : DraftDetail → DraftSummary
    summary_of detail = record {
      id = detail.id;
      message_id = detail.message.id;
      subject = subject_in detail.message.payload;
      snippet = detail.message.snippet;
      date = unwrap_or (parse_date detail.message.internal_date) (now detail.id);
    }

    -- The loop of `list_drafts_impl`.
    unfoldable pub fetch_drafts : List String → M S (List DraftSummary)
    fetch_drafts [] = pure []
    fetch_drafts (id ∷ ids) = do
      detail ←
          fetch client Z.draft_detail
            (base ++ ("/users/me/drafts/" ++ (id ++ "?format=metadata&metadataHeaders=Subject")))
      rest ← fetch_drafts ids
      pure (summary_of detail ∷ rest)

    -- `list_drafts_impl`
    unfoldable pub list_drafts : M S (List DraftSummary)
    list_drafts = do ids ← fetch client Z.draft_ids (base ++ "/users/me/drafts"); fetch_drafts ids
