-- ===== src/Dispatch/Execute.antt =====
-- dispatch.rs, `execute` and `convert_send_to_draft`: a permitted tool call on its provider.
use Prim.Native.String.{◌++◌}
use mail_mcp.Base.{
  true, String, List, [], ◌∷◌, Result, provider, not_found, panic, unwrap_or, map_err, Parsed,
  if◌then◌else◌, ◌==◌,
}
use mail_mcp.Base.State.{M, ◌>>=◌, ◌>>◌, pure, throw, lift}
use mail_mcp.Base.Ids.{DraftId}
use mail_mcp.Json.{Json}
use mail_mcp.Mail.Types.{SearchResults, MailThread, Message, Folder, Label, DraftSummary}
use mail_mcp.Mail.Provider.{MailProvider}
use mail_mcp.Dispatch.Args.{
  SendArgs, UpdateArgs, draft_of_send, outgoing_of_send, draft_of_update, str_arg, flag_arg,
  message_ids, search_query,
}

-- What serde derives for the types that cross the boundary: readers of arguments, whose errors are
-- texts, and writers of answers.
pub record Serde (J : Json) : Type 0 where
  pub send_args : J.Value → Parsed SendArgs
  pub update_args : J.Value → Parsed UpdateArgs
  pub search_results : SearchResults → Result J.Value
  pub thread : MailThread → Result J.Value
  pub message : Message → Result J.Value
  pub folders : List Folder → Result J.Value
  pub labels : List Label → Result J.Value
  pub drafts : List DraftSummary → Result J.Value

-- The answer of `convert_send_to_draft`.
unfoldable pub draft_created : (J : Json) → DraftId → J.Value
draft_created J id = J.object (
    ("result", J.string "draft_created")
    ∷ ("draft_id", J.string id)
    ∷ (
      "note",
      J.string
          "Send was converted to a draft per user policy. Please review and send from your mail client.",
    )
    ∷ [])

module _ (J : Json) (D : Serde J) {S : Type 0} (mail : MailProvider S) where
  -- `json!({"ok": true})`
  abbrev done : M S J.Value
  done = pure (J.object (("ok", J.bool true) ∷ []))

  -- `args.get(key).and_then(|v| v.as_str()).unwrap_or_default()`
  abbrev id_arg : J.Value → String → String
  id_arg args key = unwrap_or (str_arg J args key) ""

  abbrev read_send_args : String → J.Value → M S SendArgs
  read_send_args what args = lift (map_err (D.send_args args) (λ e. provider (what ++ e)))

  -- The arms that read.
  unfoldable pub execute_search : J.Value → M S J.Value
  execute_search args = do found ← mail.search (search_query J args); lift (D.search_results found)

  unfoldable pub execute_get_thread : J.Value → M S J.Value
  execute_get_thread args = do
    found ← mail.get_thread (id_arg args "thread_id")
    lift (D.thread found)

  unfoldable pub execute_get_message : J.Value → M S J.Value
  execute_get_message args = do
    found ← mail.get_message (id_arg args "message_id")
    lift (D.message found)

  unfoldable pub execute_list_folders : M S J.Value
  execute_list_folders = do found ← mail.list_folders; lift (D.folders found)

  unfoldable pub execute_list_labels : M S J.Value
  execute_list_labels = do found ← mail.list_labels; lift (D.labels found)

  unfoldable pub execute_list_drafts : M S J.Value
  execute_list_drafts = do found ← mail.list_drafts; lift (D.drafts found)

  -- The arms that sort mail.
  unfoldable pub execute_mark_read : J.Value → M S J.Value
  execute_mark_read args = do mail.mark_read (message_ids J args) (flag_arg J args "read"); done

  unfoldable pub execute_star : J.Value → M S J.Value
  execute_star args = do mail.star (message_ids J args) (flag_arg J args "starred"); done

  unfoldable pub execute_label : J.Value → M S J.Value
  execute_label args = do
    mail.label (message_ids J args) (id_arg args "label_id") (flag_arg J args "on")
    done

  unfoldable pub execute_move_to : J.Value → M S J.Value
  execute_move_to args = do mail.move_to (message_ids J args) (id_arg args "folder_id"); done

  unfoldable pub execute_archive : J.Value → M S J.Value
  execute_archive args = do mail.archive (message_ids J args); done

  unfoldable pub execute_trash : J.Value → M S J.Value
  execute_trash args = do mail.trash (message_ids J args); done

  unfoldable pub execute_untrash : J.Value → M S J.Value
  execute_untrash args = do mail.untrash (message_ids J args); done

  -- The arms that write mail.
  unfoldable pub execute_create_draft : J.Value → M S J.Value
  execute_create_draft args = do
    s ← read_send_args "bad args: " args
    id ← mail.create_draft (draft_of_send s)
    pure (J.object (("draft_id", J.string id) ∷ []))

  unfoldable pub execute_update_draft : J.Value → M S J.Value
  execute_update_draft args = do
    s ← lift (map_err (D.update_args args) (λ e. provider ("bad args: " ++ e)))
    mail.update_draft s.draft_id (draft_of_update s)
    done

  unfoldable pub execute_send_message : J.Value → M S J.Value
  execute_send_message args = do
    s ← read_send_args "bad args: " args
    id ← mail.send_message (outgoing_of_send s)
    pure (J.object (("message_id", J.string id) ∷ []))

  unfoldable pub execute_send_draft : J.Value → M S J.Value
  execute_send_draft args = do
    id ← mail.send_draft (id_arg args "draft_id")
    pure (J.object (("message_id", J.string id) ∷ []))

  unfoldable pub convert_send_to_draft : J.Value → M S J.Value
  convert_send_to_draft args = do
    s ← read_send_args "bad send args: " args
    id ← mail.create_draft (draft_of_send s)
    pure (draft_created J id)

  -- `execute`
  unfoldable pub execute : String → J.Value → M S J.Value
  execute tool args =
      if tool == "search"
      then execute_search args
      else if tool == "get_thread"
      then execute_get_thread args
      else if tool == "get_message"
      then execute_get_message args
      else if tool == "list_folders"
      then execute_list_folders
      else if tool == "list_labels"
      then execute_list_labels
      else if tool == "list_drafts"
      then execute_list_drafts
      else if tool == "mark_read"
      then execute_mark_read args
      else if tool == "star"
      then execute_star args
      else if tool == "label"
      then execute_label args
      else if tool == "move_to"
      then execute_move_to args
      else if tool == "archive"
      then execute_archive args
      else if tool == "trash"
      then execute_trash args
      else if tool == "untrash"
      then execute_untrash args
      else if tool == "create_draft"
      then execute_create_draft args
      else if tool == "update_draft"
      then execute_update_draft args
      else if tool == "send_message"
      then execute_send_message args
      else if tool == "send_draft"
      then execute_send_draft args
      else if tool == "list_accounts"
      then throw (panic "list_accounts should be handled before dispatch")
      else throw (not_found ("tool " ++ tool))
