-- ===== src/Gmail/Labels.antt =====
-- crates/mail-mcp-core/src/providers/gmail/labels.rs: the labels of the user, and those of the system,
-- which are the folders.
--
-- `decode` is the decoding of a `LabelsResponse` that serde derives.
use Prim.Native.String.{◌++◌}
use mail_mcp.Base.{true, false, String, List, map, filter, Result, ◌==◌}
use mail_mcp.Base.State.{M, ◌>>=◌, pure}
use mail_mcp.Mail.Types.{Folder, Label}
use mail_mcp.Mail.Client.{RestClient, fetch}

pub record RawLabel : Type 0 where
  pub id : String
  pub name : String
  pub kind : String

unfoldable pub label_of : RawLabel → Label
label_of l = record { id = l.id; name = l.name; system = false }

unfoldable pub folder_of : RawLabel → Folder
folder_of l = record { id = l.id; name = l.name; system = true }

module _ {V S : Type 0} (client : RestClient V S) (decode : V → Result (List RawLabel))
    (base : String) where
  -- The request of both operations, up to the decoded answer.
  unfoldable pub fetch_labels : M S (List RawLabel)
  fetch_labels = fetch client decode (base ++ "/users/me/labels")

  -- `list_labels_impl`
  unfoldable pub list_labels : M S (List Label)
  list_labels = do
    labels ← fetch_labels
    pure (map label_of (filter (λ l. l.kind == "user") labels))

  -- `list_folders_impl`
  unfoldable pub list_folders : M S (List Folder)
  list_folders = do
    labels ← fetch_labels
    pure (map folder_of (filter (λ l. l.kind == "system") labels))
