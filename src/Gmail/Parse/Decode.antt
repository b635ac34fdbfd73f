-- ===== src/Gmail/Parse/Decode.antt =====
-- parse.rs: `decode`, a whole message from its headers, its labels and its parts.
--
-- The readings of dates are chrono's and arguments, with what the clock shows.
use mail_mcp.Base.{
  String, Option, none, some, List, [], ◌∷◌, and_then, unwrap_or, Result, ok, err, provider,
  if◌then◌else◌,
}
use mathlib.Core.Option
use mail_mcp.Base.Ids.{MessageId, ThreadId}
use mail_mcp.Mail.Types.{DateTime, EmailAddress, Message}
use mail_mcp.Gmail.Parse.{RawPart, Walk, eq_lower, walk_parts, labels_of, primary_folder, flags_of}
use mail_mcp.Gmail.Parse.Addresses.{parse_address, parse_address_list}

pub record RawHeader : Type 0 where
  pub name : String
  pub value : String

-- The payload is the part at the root of the tree, with its headers.
pub record RawMessage : Type 0 where
  pub id : MessageId
  pub thread_id : ThreadId
  pub label_ids : List String
  pub snippet : String
  pub internal_date : String
  pub payload : Option (List RawHeader × RawPart)

-- `headers.get(name)`: the map keeps the last header of a name.
unfoldable pub header : String → List RawHeader → Option String
header name [] = none
header name (h ∷ hs) = elim (header name hs) [
  | some value ↦ some value
  | none ↦ if eq_lower h.name name then some h.value else none
]

-- `headers.get(name).map(parse_address_list).unwrap_or_default()`
unfoldable pub addresses : String → List RawHeader → List EmailAddress
addresses name headers = elim (header name headers) [ none ↦ [] | some s ↦ parse_address_list s ]

-- The local variables of `decode` before `walk_parts`.
abbrev empty_walk : Walk
empty_walk = record { body_text = none; body_html = none; attachments = [] }

module _ (from_rfc2822 from_millis : String → Option DateTime) (now : DateTime) where
  -- `parse_date`; `from_millis` is the reading of a number followed by `from_timestamp_millis`.
  unfoldable pub parse_date : Option String → String → DateTime
  parse_date date_header internal_ms = elim (and_then date_header from_rfc2822) [
    | some parsed ↦ parsed
    | none ↦ unwrap_or (from_millis internal_ms) now
  ]

  module _ (decode64 : String → Option String) where
    -- `decode` of a message that has a payload.
    unfoldable pub decode_payload : RawMessage → List RawHeader → RawPart → Message
    decode_payload raw headers payload =
        let w = walk_parts decode64 payload empty_walk in
        record {
          id = raw.id;
          thread_id = raw.thread_id;
          from = Option.map parse_address (header "from" headers);
          to = addresses "to" headers;
          cc = addresses "cc" headers;
          bcc = addresses "bcc" headers;
          subject = unwrap_or (header "subject" headers) "";
          date = parse_date (header "date" headers) raw.internal_date;
          body_text = w.body_text;
          body_html = w.body_html;
          labels = labels_of raw.label_ids;
          folder = primary_folder raw.label_ids;
          flags = flags_of raw.label_ids;
          attachments = w.attachments;
          snippet = raw.snippet;
        }

    -- `decode`
    unfoldable pub decode : RawMessage → Result Message
    decode raw = elim raw.payload [
      | none ↦ err (provider "message missing payload")
      | some (headers, payload) ↦ ok (decode_payload raw headers payload)
    ]
