-- ===== src/M365/Parse.antt =====
-- crates/mail-mcp-core/src/providers/m365/parse.rs: a message of Graph, decoded.
--
-- Names that serde maps are the fields' own; `parse_date` is chrono's reading of RFC 3339.
use mail_mcp.Base.{
  Bool, ◌||◌, String, Option, none, some, List, [], filter_map, Result, ok_or, and_then, unwrap_or,
  ◌>>=◌, ok, provider, if◌then◌else◌, ◌==◌,
}
use mail_mcp.Mail.Types.{DateTime, EmailAddress, Message}

pub record RawAddress : Type 0 where
  pub name : Option String
  pub address : Option String

pub record RawRecipient : Type 0 where
  pub email_address : Option RawAddress

pub record RawFlag : Type 0 where
  pub flag_status : Option String

pub record RawBody : Type 0 where
  pub content_type : Option String
  pub content : Option String

pub record RawMessage : Type 0 where
  pub id : String
  pub conversation_id : String
  pub subject : Option String
  pub body_preview : Option String
  pub from : Option RawRecipient
  pub to_recipients : List RawRecipient
  pub cc_recipients : List RawRecipient
  pub bcc_recipients : List RawRecipient
  pub categories : List String
  pub is_read : Bool
  pub flag : Option RawFlag
  pub is_draft : Bool
  pub parent_folder_id : Option String
  pub received_date_time : Option String
  pub body : Option RawBody

-- `filter(|s| !s.is_empty())`
unfoldable pub non_empty : Option String → Option String
non_empty none = none
non_empty (some s) = if s == "" then none else some s

-- `to_email_address`
unfoldable pub to_email_address : RawRecipient → Option EmailAddress
to_email_address r = and_then r.email_address (λ addr.
    and_then addr.address (λ email. some (record { email = email; name = non_empty addr.name })))

-- The match on the content type.
unfoldable pub is_html : Option String → Bool
is_html none = Bool.false
is_html (some t) = t == "html" || (t == "Html" || t == "HTML")

-- `(body_text, body_html)`
unfoldable pub bodies : Option RawBody → Option String × Option String
bodies none = (none, none)
bodies (some b) = elim b.content [
  | none ↦ (none, none)
  | some c ↦ if is_html b.content_type then (none, some c) else (some c, none)
]

-- `starred`
unfoldable pub is_starred : Option RawFlag → Bool
is_starred flag = elim (and_then flag (λ f. f.flag_status)) [
  | none ↦ Bool.false
  | some s ↦ s == "flagged" || s == "complete"
]

module _ (parse_date : String → Option DateTime) where
  -- `decode`
  unfoldable pub decode : RawMessage → Result Message
  decode raw = do
    date ←
        ok_or (and_then raw.received_date_time parse_date)
          (provider "message missing receivedDateTime")
    ok record {
      id = raw.id;
      thread_id = raw.conversation_id;
      from = and_then raw.from to_email_address;
      to = filter_map to_email_address raw.to_recipients;
      cc = filter_map to_email_address raw.cc_recipients;
      bcc = filter_map to_email_address raw.bcc_recipients;
      subject = unwrap_or raw.subject "";
      date = date;
      body_text = (bodies raw.body).0;
      body_html = (bodies raw.body).1;
      labels = raw.categories;
      folder = raw.parent_folder_id;
      flags = record { read = raw.is_read; starred = is_starred raw.flag; draft = raw.is_draft };
      attachments = [];
      snippet = unwrap_or raw.body_preview "";
    }
