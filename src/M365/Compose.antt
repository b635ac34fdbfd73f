-- ===== src/M365/Compose.antt =====
-- crates/mail-mcp-core/src/providers/m365/compose.rs: drafts, and messages that are sent.
--
-- The readings of the answers are what serde derives; `parse_date` is chrono's reading of RFC 3339 and
-- `now` what the clock shows at a draft.
use Prim.Native.String.{◌++◌}
use mail_mcp.Base.{
  Bool, String, Option, none, some, List, [], ◌∷◌, map, filter, and_then, unwrap_or, Result,
}
use mail_mcp.Base.State.{M, ◌>>=◌, pure, lift}
use mail_mcp.Base.Ids.{MessageId, DraftId}
use mail_mcp.Json.{Json}
use mail_mcp.Mail.Types.{DateTime, EmailAddress, DraftInput, DraftSummary, OutgoingMessage}
use mail_mcp.Mail.Client.{RestClient, fetch}
use mail_mcp.Gmail.Compose.{input_of}

pub record DraftListItem : Type 0 where
  pub id : String
  pub subject : Option String
  pub body_preview : Option String
  pub created_date_time : Option String
  pub is_draft : Bool

-- The content type and the content.
unfoldable pub content_of : (html text : Option String) → String × String
content_of (some html) text = ("html", html)
content_of none (some text) = ("text", text)
content_of none none = ("text", "")

module _ (J : Json) where
  unfoldable pub name_field : Option String → List (String × J.Value)
  name_field none = []
  name_field (some name) = ("name", J.string name) ∷ []

  -- The closure of `recipients`.
  unfoldable pub recipient : EmailAddress → J.Value
  recipient a =
      J.object (("emailAddress", J.object (("address", J.string a.email) ∷ name_field a.name)) ∷ [])

  -- `recipients`
  unfoldable pub recipients : List EmailAddress → J.Value
  recipients addrs = J.array (map recipient addrs)

  -- `message_body`
  unfoldable pub message_body : DraftInput → J.Value
  message_body input =
      let (content_type, content) = content_of input.body_html input.body_text in
      J.object (
        ("subject", J.string input.subject)
        ∷ (
          "body",
          J.object (("contentType", J.string content_type) ∷ ("content", J.string content) ∷ []),
        )
        ∷ ("toRecipients", recipients input.to)
        ∷ ("ccRecipients", recipients input.cc)
        ∷ ("bccRecipients", recipients input.bcc)
        ∷ [])

  module _ {S : Type 0} (client : RestClient J.Value S) (base : String) where
    -- `create_draft_impl`
    unfoldable pub create_draft : (J.Value → Result String) → DraftInput → M S DraftId
    create_draft read_id input = do
      resp ← client.post_json (base ++ "/me/messages") (message_body input)
      v ← lift (client.json resp)
      lift (read_id v)

    -- `update_draft_impl`
    unfoldable pub update_draft : DraftId → DraftInput → M S (Unit {0})
    update_draft id input =
        client.patch_json (base ++ ("/me/messages/" ++ id)) (message_body input) >>= (λ _. pure tt)

    -- `send_draft_impl`
    unfoldable pub send_draft : DraftId → M S MessageId
    send_draft id =
        client.post_json (base ++ ("/me/messages/" ++ (id ++ "/send"))) (J.object [])
        >>= (λ _. pure id)

    -- `send_message_impl`
    unfoldable pub send_message : (J.Value → Result String) → OutgoingMessage → M S MessageId
    send_message read_id m = do draft_id ← create_draft read_id (input_of m); send_draft draft_id

module _ (parse_date : String → Option DateTime) (now : DraftId → DateTime) where
  unfoldable pub draft_summary : DraftListItem → DraftSummary
  draft_summary d = record {
    id = d.id;
    message_id = d.id;
    subject = unwrap_or d.subject "";
    snippet = unwrap_or d.body_preview "";
    date = unwrap_or (and_then d.created_date_time parse_date) (now d.id);
  }

  -- `list_drafts_impl`
  unfoldable pub list_drafts :
      {V S : Type 0}
      → RestClient V S
      → String
      → (V → Result (List DraftListItem))
      → M S (List DraftSummary)
  list_drafts client base read = do
    value ←
        fetch client read
          (base ++ "/me/mailFolders/Drafts/messages?$top=50&$orderby=createdDateTime desc")
    pure (map draft_summary (filter (λ d. d.is_draft) value))
