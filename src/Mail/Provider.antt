-- ===== src/Mail/Provider.antt =====
-- providers/trait.rs: the trait that every mail provider implements, as a record of methods over the
-- state `S` of the remote mailbox (and of the client that talks to it).
use mail_mcp.Base.{Bool, List}
use mail_mcp.Base.State.{M}
use mail_mcp.Base.Ids.{MessageId, ThreadId, DraftId, LabelId, FolderId}
use mail_mcp.Mail.Types.{
  SearchQuery, SearchResults, MailThread, Message, Folder, Label, DraftSummary, DraftInput,
  OutgoingMessage,
}

pub record MailProvider (S : Type 0) : Type 0 where
  pub search : SearchQuery → M S SearchResults
  pub get_thread : ThreadId → M S MailThread
  pub get_message : MessageId → M S Message
  pub list_folders : M S (List Folder)
  pub list_labels : M S (List Label)
  pub list_drafts : M S (List DraftSummary)
  pub mark_read : List MessageId → Bool → M S (Unit {0})
  pub star : List MessageId → Bool → M S (Unit {0})
  pub label : List MessageId → LabelId → Bool → M S (Unit {0})
  pub move_to : List MessageId → FolderId → M S (Unit {0})
  pub archive : List MessageId → M S (Unit {0})
  pub trash : List MessageId → M S (Unit {0})
  pub untrash : List MessageId → M S (Unit {0})
  pub create_draft : DraftInput → M S DraftId
  pub update_draft : DraftId → DraftInput → M S (Unit {0})
  pub send_message : OutgoingMessage → M S MessageId
  pub send_draft : DraftId → M S MessageId
