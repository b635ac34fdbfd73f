-- ===== src/Gmail/Provider.antt =====
-- crates/mail-mcp-core/src/providers/gmail/provider.rs: `GmailProvider`, the operations as one provider.
--
-- `Reading` has what the operations take from other crates.
use mail_mcp.Base.{ℕ, String, Option, some, List, Result}
use mail_mcp.Json.{Json}
use mail_mcp.Mail.Types.{DateTime}
use mail_mcp.Base.Ids.{DraftId}
use mail_mcp.Mail.Client.{RestClient}
use mail_mcp.Mail.Provider.{MailProvider}
use mail_mcp.Gmail.Parse.Decode
use mail_mcp.Gmail.Parse.Decode.{RawMessage}
use mail_mcp.Gmail.Triage
use mail_mcp.Gmail.Triage.{ModifyRequest}
use mail_mcp.Gmail.Trash
use mail_mcp.Gmail.Labels
use mail_mcp.Gmail.Labels.{RawLabel}
use mail_mcp.Gmail.Messages
use mail_mcp.Gmail.Messages.{ThreadsList, ThreadFull}
use mail_mcp.Gmail.Compose
use mail_mcp.Gmail.Compose.{MessageBuilder, Shapes}

-- `PROD_BASE`
abbrev pub prod_base : String
prod_base = "https://gmail.googleapis.com/gmail/v1"

pub record Reading (J : Json) (B : MessageBuilder) : Type 1 where
  pub message : J.Value → Result RawMessage
  pub thread : J.Value → Result (ThreadFull RawMessage)
  pub threads : J.Value → Result ThreadsList
  pub labels : J.Value → Result (List RawLabel)
  pub modify : ModifyRequest → J.Value
  pub shapes : Shapes J.Value
  pub b64url : B.Bytes → String
  pub urlencode : String → String
  pub decimal : ℕ → String
  pub decode64 : String → Option String
  pub from_rfc2822 : String → Option DateTime
  pub from_millis : String → Option DateTime
  -- What the clock shows where a message has no date, and where a draft has none.
  pub clock : DateTime
  pub now : DraftId → DateTime

-- `GmailProvider::with_base`; `new` gives it `prod_base`.
unfoldable pub with_base :
    (J : Json) (B : MessageBuilder) (R : Reading J B) {S : Type 0}
    → RestClient J.Value S
    → (base user_email : String) → MailProvider S
with_base J B R client base user_email =
    let decode = Decode.decode R.from_rfc2822 R.from_millis R.clock R.decode64 in
    record {
      search = Messages.search client base decode R.thread R.threads R.urlencode R.decimal;
      get_thread = Messages.get_thread_full client base decode R.thread;
      get_message = Messages.get_message client base decode R.thread R.message;
      list_folders = Labels.list_folders client R.labels base;
      list_labels = Labels.list_labels client R.labels base;
      list_drafts = Compose.list_drafts J B R.b64url R.shapes client base R.from_millis R.now;
      mark_read = Triage.mark_read client R.modify base;
      star = Triage.star client R.modify base;
      label = Triage.label client R.modify base;
      move_to = Triage.move_to client R.modify base;
      archive = Triage.archive client R.modify base;
      trash = Trash.trash J client base;
      untrash = Trash.untrash J client base;
      create_draft =
          λ d. Compose.create_draft J B R.b64url R.shapes client base d (some user_email);
      update_draft =
          λ id d. Compose.update_draft J B R.b64url R.shapes client base id d (some user_email);
      send_message =
          λ m. Compose.send_message J B R.b64url R.shapes client base m (some user_email);
      send_draft = Compose.send_draft J B R.b64url R.shapes client base;
    }
