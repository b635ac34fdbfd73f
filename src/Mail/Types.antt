-- ===== src/Mail/Types.antt =====
-- providers/types.rs: the domain types, and `SearchResults` of providers/trait.rs. A `DateTime<Utc>` is its time in milliseconds; `u32` and
-- `u64` fields are numbers.
use mail_mcp.Base.{ℕ, Bool, String, Option, List}
use mail_mcp.Base.Ids.{MessageId, ThreadId, DraftId, LabelId, FolderId}

abbrev pub DateTime : Type 0
DateTime = ℕ

pub record EmailAddress : Type 0 where
  pub email : String
  pub name : Option String

pub record SearchQuery : Type 0 where
  pub text : Option String
  pub folder : Option FolderId
  pub label : Option LabelId
  pub limit : Option ℕ
  pub cursor : Option String

pub record ThreadSummary : Type 0 where
  pub id : ThreadId
  pub last_message_id : MessageId
  pub subject : String
  pub snippet : String
  pub from : Option EmailAddress
  pub date : DateTime
  pub message_count : ℕ
  pub unread : Bool
  pub starred : Bool
  pub labels : List LabelId
  pub folder : Option FolderId

pub record MessageFlags : Type 0 where
  pub read : Bool
  pub starred : Bool
  pub draft : Bool

pub record AttachmentMeta : Type 0 where
  pub id : String
  pub filename : String
  pub mime_type : String
  pub size_bytes : ℕ

pub record Message : Type 0 where
  pub id : MessageId
  pub thread_id : ThreadId
  pub from : Option EmailAddress
  pub to : List EmailAddress
  pub cc : List EmailAddress
  pub bcc : List EmailAddress
  pub subject : String
  pub date : DateTime
  pub body_text : Option String
  pub body_html : Option String
  pub labels : List LabelId
  pub folder : Option FolderId
  pub flags : MessageFlags
  pub attachments : List AttachmentMeta
  pub snippet : String

pub record MailThread : Type 0 where
  pub id : ThreadId
  pub subject : String
  pub messages : List Message

pub record DraftSummary : Type 0 where
  pub id : DraftId
  pub message_id : MessageId
  pub subject : String
  pub snippet : String
  pub date : DateTime

pub record DraftInput : Type 0 where
  pub to : List EmailAddress
  pub cc : List EmailAddress
  pub bcc : List EmailAddress
  pub subject : String
  pub body_text : Option String
  pub body_html : Option String
  pub in_reply_to : Option MessageId
  pub thread_id : Option ThreadId

pub record OutgoingMessage : Type 0 where
  pub to : List EmailAddress
  pub cc : List EmailAddress
  pub bcc : List EmailAddress
  pub subject : String
  pub body_text : Option String
  pub body_html : Option String
  pub in_reply_to : Option MessageId
  pub thread_id : Option ThreadId

pub record Folder : Type 0 where
  pub id : FolderId
  pub name : String
  pub system : Bool

pub record Label : Type 0 where
  pub id : LabelId
  pub name : String
  pub system : Bool

pub record SearchResults : Type 0 where
  pub threads : List ThreadSummary
  pub next_cursor : Option String
