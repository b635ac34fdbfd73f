-- ===== src/M365/Provider.antt =====
-- crates/mail-mcp-core/src/providers/m365/provider.rs: `M365Provider`, the operations as one provider.
--
-- `Reading` has what the operations take from other crates.
use mail_mcp.Base.{ℕ, String, Option, List, Result}
use mail_mcp.Base.Ids.{DraftId}
use mail_mcp.Json.{Json}
use mail_mcp.Mail.Types.{DateTime}
use mail_mcp.Mail.Client.{RestClient}
use mail_mcp.Mail.Provider.{MailProvider}
use mail_mcp.M365.Triage
use mail_mcp.M365.Folders
use mail_mcp.M365.Folders.{RawFolder, RawCategory}
use mail_mcp.M365.Parse.{RawMessage}
use mail_mcp.M365.Messages
use mail_mcp.M365.Messages.{ListResponse}
use mail_mcp.M365.Compose
use mail_mcp.M365.Compose.{DraftListItem}

pub record Reading (J : Json) : Type 0 where
  pub message : J.Value → Result RawMessage
  pub messages : J.Value → Result (ListResponse RawMessage)
  pub folders : J.Value → Result (List RawFolder)
  pub categories : J.Value → Result (List RawCategory)
  pub drafts : J.Value → Result (List DraftListItem)
  pub created : J.Value → Result String
  pub urlencode : String → String
  pub decimal : ℕ → String
  pub parse_date : String → Option DateTime
  pub now : DraftId → DateTime

-- `M365Provider::with_base`
unfoldable pub with_base :
    (J : Json) (R : Reading J) {S : Type 0} → RestClient J.Value S → String → MailProvider S
with_base J R client base = record {
  search = Messages.search R.parse_date client base R.urlencode R.decimal R.messages;
  get_thread = Messages.get_thread R.parse_date client base R.urlencode R.decimal R.messages;
  get_message = Messages.get_message R.parse_date client base R.message;
  list_folders = Folders.list_folders client base R.folders;
  list_labels = Folders.list_labels client base R.categories;
  list_drafts = Compose.list_drafts R.parse_date R.now client base R.drafts;
  mark_read = Triage.mark_read J client base;
  star = Triage.star J client base;
  label = Triage.label J client base;
  move_to = Triage.move_to J client base;
  archive = Triage.archive J client base;
  trash = Triage.trash J client base;
  untrash = Triage.untrash J client base;
  create_draft = Compose.create_draft J client base R.created;
  update_draft = Compose.update_draft J client base;
  send_message = Compose.send_message J client base R.created;
  send_draft = Compose.send_draft J client base;
}
