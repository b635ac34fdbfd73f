-- ===== src/M365/Folders.antt =====
-- crates/mail-mcp-core/src/providers/m365/folders.rs: the well-known folders, and the categories.
--
-- The decoding of the two answers, which serde derives, is an argument.
use Prim.Native.String.{◌++◌}
use mail_mcp.Base.{
  true, false, String, Option, none, some, List, [], ◌∷◌, map, any, filter_map, Result,
  if◌then◌else◌, ◌==◌,
}
use mail_mcp.Base.State.{M, ◌>>=◌, pure}
use mail_mcp.Mail.Types.{Folder, Label}
use mail_mcp.Mail.Client.{RestClient, fetch}

-- `WELL_KNOWN_FOLDERS`
abbrev pub well_known_folders : List String
well_known_folders =
    "inbox" ∷ "sentitems" ∷ "deleteditems" ∷ "drafts" ∷ "junkemail" ∷ "archive" ∷ []

pub record RawFolder : Type 0 where
  pub display_name : String
  pub well_known_name : Option String

pub record RawCategory : Type 0 where
  pub id : String
  pub display_name : String

-- The closure of `list_folders_impl`.
unfoldable pub folder_in : RawFolder → Option Folder
folder_in f = elim f.well_known_name [
  | none ↦ none
  | some wkn ↦
      if any (λ w. w == wkn) well_known_folders
      then some (record { id = wkn; name = f.display_name; system = true })
      else none
]

-- The closure of `list_labels_impl`.
unfoldable pub label_in : RawCategory → Label
label_in c = record { id = c.id; name = c.display_name; system = false }

module _ {V S : Type 0} (client : RestClient V S) (base : String) where
  -- `list_folders_impl`
  unfoldable pub list_folders : (V → Result (List RawFolder)) → M S (List Folder)
  list_folders decode = do
    value ← fetch client decode (base ++ "/me/mailFolders?$top=100")
    pure (filter_map folder_in value)

  -- `list_labels_impl`
  unfoldable pub list_labels : (V → Result (List RawCategory)) → M S (List Label)
  list_labels decode = do
    value ← fetch client decode (base ++ "/me/outlook/masterCategories")
    pure (map label_in value)
