-- ===== src/Gmail/Triage.antt =====
-- crates/mail-mcp-core/src/providers/gmail/triage.rs: the edits of labels, one request to a message.
--
-- `body` is what serde makes of a `ModifyRequest`.
pub mod Edits
use Prim.Native.String.{◌++◌}
use mail_mcp.Base.{Bool, not, String, List, [], ◌∷◌, filter, if◌then◌else◌, ◌==◌}
use mail_mcp.Base.State.{M, ◌>>=◌, ◌>>◌, pure}
use mail_mcp.Base.Ids.{MessageId, LabelId, FolderId}
use mail_mcp.Mail.Client.{RestClient}

pub record ModifyRequest : Type 0 where
  pub add : List String
  pub remove : List String

-- The loop of `move_to_impl` over the system folders.
unfoldable pub other_folders : FolderId → List String
other_folders folder = filter (λ sys. not (folder == sys)) ("INBOX" ∷ "SPAM" ∷ "TRASH" ∷ [])

-- The requests of the operations.
unfoldable pub read_request : Bool → ModifyRequest
read_request read =
    if read
    then record { add = []; remove = "UNREAD" ∷ [] }
    else record { add = "UNREAD" ∷ []; remove = [] }

unfoldable pub star_request : Bool → ModifyRequest
star_request starred =
    if starred
    then record { add = "STARRED" ∷ []; remove = [] }
    else record { add = []; remove = "STARRED" ∷ [] }

unfoldable pub label_request : LabelId → Bool → ModifyRequest
label_request label on =
    if on
    then record { add = label ∷ []; remove = [] }
    else record { add = []; remove = label ∷ [] }

unfoldable pub move_request : FolderId → ModifyRequest
move_request folder = record { add = folder ∷ []; remove = other_folders folder }

unfoldable pub archive_request : ModifyRequest
archive_request = record { add = []; remove = "INBOX" ∷ [] }

-- The `format!` of `modify_one`.
unfoldable pub modify_url : (base : String) → MessageId → String
modify_url base id = base ++ ("/users/me/messages/" ++ (id ++ "/modify"))

module _ {V S : Type 0} (client : RestClient V S) (body : ModifyRequest → V) (base : String) where
  -- `modify_one`
  unfoldable pub modify_one : MessageId → ModifyRequest → M S (Unit {0})
  modify_one id req = client.post_json (modify_url base id) (body req) >>= (λ _. pure tt)

  -- `modify_all`
  unfoldable pub modify_all : List MessageId → ModifyRequest → M S (Unit {0})
  modify_all [] req = pure tt
  modify_all (id ∷ ids) req = modify_one id req >> modify_all ids req

  -- `mark_read_impl`
  unfoldable pub mark_read : List MessageId → Bool → M S (Unit {0})
  mark_read ids read = modify_all ids (read_request read)

  -- `star_impl`
  unfoldable pub star : List MessageId → Bool → M S (Unit {0})
  star ids starred = modify_all ids (star_request starred)

  -- `label_impl`
  unfoldable pub label : List MessageId → LabelId → Bool → M S (Unit {0})
  label ids l on = modify_all ids (label_request l on)

  -- `move_to_impl`
  unfoldable pub move_to : List MessageId → FolderId → M S (Unit {0})
  move_to ids folder = modify_all ids (move_request folder)

  -- `archive_impl`
  unfoldable pub archive : List MessageId → M S (Unit {0})
  archive ids = modify_all ids archive_request
