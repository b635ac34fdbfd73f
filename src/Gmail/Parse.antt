-- ===== src/Gmail/Parse.antt =====
-- parse.rs: the tree of MIME parts of a message, and what its labels say.
--
-- `decode64` is the decoding of a body's data, base64 and then UTF-8, by other crates.
pub mod Parts
pub mod Bodies
pub mod Folder
pub mod Addresses
pub mod Decode
pub mod Names
pub mod Lists
use Prim.Native.Char.{code}
use Prim.Native.String
use mail_mcp.Base.{
  ℕ, ◌+◌, Bool, true, false, not, ◌&&◌, String, Option, none, some, List, [], ◌∷◌, ◌++◌, any,
  filter, and_then, unwrap_or, if◌then◌else◌, ◌==◌, same, leb, nat_key,
}
use mail_mcp.Base.Ids.{FolderId, LabelId}
use mail_mcp.Mail.Types.{AttachmentMeta, MessageFlags}

pub record RawBody : Type 0 where
  pub size : ℕ
  pub data_text : Option String
  pub attachment_id : Option String

-- A `RawPart` without its sub-parts; the headers are read only at the top.
pub record PartInfo : Type 0 where
  pub mime_type : String
  pub filename : String
  pub body : Option RawBody

mutual
  pub data RawPart : Type 0 where
    part : PartInfo → RawParts → RawPart

  pub data RawParts : Type 0 where
    nil : RawParts
    cons : RawPart → RawParts → RawParts

-- What `walk_parts` writes to.
pub record Walk : Type 0 where
  pub body_text : Option String
  pub body_html : Option String
  pub attachments : List AttachmentMeta

-- `to_ascii_lowercase()` of one character
unfoldable pub to_lower : ℕ → ℕ
to_lower c = if leb 65 c && leb c 90 then c + 32 else c

-- `s.to_ascii_lowercase() == t`
unfoldable pub eq_lower : String → String → Bool
eq_lower String.[] String.[] = true
eq_lower String.[] (String.◌∷◌ _ _) = false
eq_lower (String.◌∷◌ _ _) String.[] = false
eq_lower (String.◌∷◌ c s) (String.◌∷◌ d t) = same (to_lower (code c)) (code d) && eq_lower s t

unfoldable pub is_none {ℓ} : {A : Type ℓ} → Option A → Bool
is_none none = true
is_none (some _) = false

-- The entry for a part with a file name and a body.
unfoldable pub attachment : PartInfo → RawBody → AttachmentMeta
attachment p body = record {
  id = unwrap_or body.attachment_id "";
  filename = p.filename;
  mime_type = p.mime_type;
  size_bytes = body.size;
}

unfoldable pub attach : PartInfo → Walk → Walk
attach p w = elim p.body [
  | none ↦ w
  | some body ↦ record w { attachments = w.attachments ++ attachment p body ∷ [] }
]

module _ (decode64 : String → Option String) where
  -- `decode_body`
  unfoldable pub decode_body : RawBody → Option String
  decode_body b = and_then b.data_text decode64

  -- `walk_parts` before its loop over the sub-parts.
  unfoldable pub visit : PartInfo → Walk → Walk
  visit p w =
      if eq_lower p.mime_type "text/plain" && is_none w.body_text
      then record w { body_text = and_then p.body decode_body }
      else if eq_lower p.mime_type "text/html" && is_none w.body_html
      then record w { body_html = and_then p.body decode_body }
      else if not (p.filename == "")
      then attach p w
      else w

  unfoldable mutual
    -- `walk_parts`
    pub walk_parts : RawPart → Walk → Walk
    walk_parts (part p subs) w = walk_all subs (visit p w)

    -- Its loop.
    pub walk_all : RawParts → Walk → Walk
    walk_all nil w = w
    walk_all (cons p ps) w = walk_all ps (walk_parts p w)

-- `is_system_label`
unfoldable pub is_system_label : String → Bool
is_system_label id =
    any (λ sys. id == sys)
      ("INBOX" ∷ "SENT" ∷ "TRASH" ∷ "DRAFT" ∷ "SPAM" ∷ "STARRED" ∷ "UNREAD" ∷ "IMPORTANT" ∷ "CHAT"
        ∷ "CATEGORY_PERSONAL" ∷ "CATEGORY_SOCIAL" ∷ "CATEGORY_PROMOTIONS" ∷ "CATEGORY_UPDATES"
        ∷ "CATEGORY_FORUMS" ∷ [])

-- The labels of the message that `decode` makes.
unfoldable pub labels_of : List String → List LabelId
labels_of label_ids = filter (λ id. not (is_system_label id)) label_ids

-- The loop of `primary_folder`.
unfoldable pub first_folder : List String → List String → Option FolderId
first_folder label_ids [] = none
first_folder label_ids (sys ∷ more) =
    if any (λ id. id == sys) label_ids then some sys else first_folder label_ids more

-- `primary_folder`
unfoldable pub primary_folder : List String → Option FolderId
primary_folder label_ids =
    first_folder label_ids ("INBOX" ∷ "SENT" ∷ "TRASH" ∷ "DRAFT" ∷ "SPAM" ∷ [])

-- The flags that `decode` reads off the labels.
unfoldable pub flags_of : List String → MessageFlags
flags_of label_ids = record {
  read = not (any (λ id. id == "UNREAD") label_ids);
  starred = any (λ id. id == "STARRED") label_ids;
  draft = any (λ id. id == "DRAFT") label_ids;
}
