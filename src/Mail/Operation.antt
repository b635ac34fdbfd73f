-- ===== src/Mail/Operation.antt =====
-- The operations of a provider as data, and what a series of them leaves on the remote side.
use mail_mcp.Base.{Bool, List, [], ◌∷◌}
use mail_mcp.Base.Ids.{ThreadId, MessageId, DraftId, LabelId, FolderId}
use mail_mcp.Mail.Types.{SearchQuery, DraftInput, OutgoingMessage}
use mail_mcp.Mail.Provider.{MailProvider}

pub data Operation : Type 0 where
  search : SearchQuery → Operation
  get_thread : ThreadId → Operation
  get_message : MessageId → Operation
  list_folders list_labels list_drafts : Operation
  mark_read : List MessageId → Bool → Operation
  star : List MessageId → Bool → Operation
  label : List MessageId → LabelId → Bool → Operation
  move_to : List MessageId → FolderId → Operation
  archive trash untrash : List MessageId → Operation
  create_draft : DraftInput → Operation
  update_draft : DraftId → DraftInput → Operation
  send_message : OutgoingMessage → Operation
  send_draft : DraftId → Operation

module _ {S : Type 0} (mail : MailProvider S) where
  unfoldable pub perform : Operation → S → S
  perform (search q) s = (mail.search q s).1
  perform (get_thread id) s = (mail.get_thread id s).1
  perform (get_message id) s = (mail.get_message id s).1
  perform list_folders s = (mail.list_folders s).1
  perform list_labels s = (mail.list_labels s).1
  perform list_drafts s = (mail.list_drafts s).1
  perform (mark_read ids read) s = (mail.mark_read ids read s).1
  perform (star ids starred) s = (mail.star ids starred s).1
  perform (label ids l on) s = (mail.label ids l on s).1
  perform (move_to ids folder) s = (mail.move_to ids folder s).1
  perform (archive ids) s = (mail.archive ids s).1
  perform (trash ids) s = (mail.trash ids s).1
  perform (untrash ids) s = (mail.untrash ids s).1
  perform (create_draft d) s = (mail.create_draft d s).1
  perform (update_draft id d) s = (mail.update_draft id d s).1
  perform (send_message m) s = (mail.send_message m s).1
  perform (send_draft id) s = (mail.send_draft id s).1

  unfoldable pub perform_all : List Operation → S → S
  perform_all [] s = s
  perform_all (op ∷ ops) s = perform_all ops (perform op s)
