-- ===== src/M365/Keeping.antt =====
-- What every request to Microsoft Graph keeps, every operation of the provider keeps.
use mail_mcp.Base.{String, List, [], ◌∷◌, Result, Bool}
use mail_mcp.Json.{Json}
use mail_mcp.Base.Ids.{MessageId, DraftId, LabelId}
use mail_mcp.Base.Keeps.{Keeps, bind-Keeps, lift-Keeps, pure-Keeps}
use mail_mcp.Base.State.{M, lift}
use mail_mcp.Mail.Types.{DraftInput}
use mail_mcp.Mail.Client.{RestClient}
use mail_mcp.Mail.Keeping.{IsKept, IsKeeping, fetch-Keeps}
use mail_mcp.M365.Triage.{
  for_each, patch_one, move_one, label_one, mark_read, star, label, move_to, archive, trash,
  untrash,
}
use mail_mcp.M365.Folders.{list_folders, list_labels}
use mail_mcp.M365.Messages.{search, get_thread, get_message}
use mail_mcp.M365.Compose.{
  message_body, create_draft, update_draft, send_draft, send_message, list_drafts,
}
use mail_mcp.M365.Provider.{Reading, with_base}

for_each-Keeps :
    {S : Type 0} {P : S → Type 0} (one : MessageId → M S (Unit {0})) (ids : List MessageId)
    → ((id : MessageId) → Keeps P (one id))
    → Keeps P (for_each one ids)
unfolding for_each
for_each-Keeps one [] h = pure-Keeps tt
for_each-Keeps one (id ∷ ids) h = bind-Keeps (one id) _ (h id) (λ _. for_each-Keeps one ids h)

module _ (J : Json) {S : Type 0} {P : S → Type 0} (client : RestClient J.Value S)
    (h : IsKept P client) (base : String) where
  patch_one-Keeps : (id : MessageId) (body : J.Value) → Keeps P (patch_one J client base id body)
  unfolding patch_one
  patch_one-Keeps id body =
      bind-Keeps (client.patch_json _ body) _ (h.patch_json _ body) (λ _. pure-Keeps tt)

  move_one-Keeps : (dest : String) (id : MessageId) → Keeps P (move_one J client base id dest)
  unfolding move_one
  move_one-Keeps dest id =
      bind-Keeps (client.post_json _ _) _ (h.post_json _ _) (λ _. pure-Keeps tt)

  label_one-Keeps :
      (l : LabelId) (on : Bool) (id : MessageId) → Keeps P (label_one J client base l on id)
  unfolding label_one
  label_one-Keeps l on id = bind-Keeps (client.get _) _ (h.get _) λ answer.
      bind-Keeps (lift (client.json answer)) _ (lift-Keeps (client.json answer))
        (λ resp. patch_one-Keeps id _)

  create_draft-Keeps :
      (read_id : J.Value → Result String) (input : DraftInput)
      → Keeps P (create_draft J client base read_id input)
  unfolding create_draft
  create_draft-Keeps read_id input =
      bind-Keeps (client.post_json _ (message_body J input)) _
        (h.post_json _ (message_body J input))
        λ resp.
          bind-Keeps (lift (client.json resp)) _ (lift-Keeps (client.json resp))
            (λ v. lift-Keeps (read_id v))

  send_draft-Keeps : (id : DraftId) → Keeps P (send_draft J client base id)
  unfolding send_draft
  send_draft-Keeps id = bind-Keeps (client.post_json _ _) _ (h.post_json _ _) (λ _. pure-Keeps id)

-- A property of the remote side that every request keeps is kept by every operation of the
-- provider, on success and on each error.
pub with_base-IsKeeping :
    (J : Json) (R : Reading J) {S : Type 0} {P : S → Type 0} (client : RestClient J.Value S)
    (base : String)
    → IsKept P client
    → IsKeeping P (with_base J R client base)
unfolding with_base mark_read star label move_to archive trash untrash list_labels list_folders
    search get_thread get_message update_draft send_message list_drafts
with_base-IsKeeping J R client base h = record {
  search = λ q.
      bind-Keeps _ _ (fetch-Keeps client h R.messages _)
        λ resp. bind-Keeps (lift _) _ (lift-Keeps _) (λ threads. pure-Keeps _);
  get_thread = λ id.
      bind-Keeps _ _ (fetch-Keeps client h R.messages _)
        λ resp. bind-Keeps (lift _) _ (lift-Keeps _) (λ messages. pure-Keeps _);
  get_message = λ id. bind-Keeps _ _ (fetch-Keeps client h R.message _) (λ raw. lift-Keeps _);
  list_folders = bind-Keeps _ _ (fetch-Keeps client h R.folders _) (λ value. pure-Keeps _);
  list_labels = bind-Keeps _ _ (fetch-Keeps client h R.categories _) (λ value. pure-Keeps _);
  list_drafts = bind-Keeps _ _ (fetch-Keeps client h R.drafts _) (λ value. pure-Keeps _);
  mark_read = λ ids read. for_each-Keeps _ ids (λ id. patch_one-Keeps J client h base id _);
  star = λ ids starred. for_each-Keeps _ ids (λ id. patch_one-Keeps J client h base id _);
  label = λ ids l on. for_each-Keeps _ ids (λ id. label_one-Keeps J client h base l on id);
  move_to = λ ids folder. for_each-Keeps _ ids (λ id. move_one-Keeps J client h base folder id);
  archive = λ ids. for_each-Keeps _ ids (λ id. move_one-Keeps J client h base _ id);
  trash = λ ids. for_each-Keeps _ ids (λ id. move_one-Keeps J client h base _ id);
  untrash = λ ids. for_each-Keeps _ ids (λ id. move_one-Keeps J client h base _ id);
  create_draft = λ d. create_draft-Keeps J client h base R.created d;
  update_draft =
      λ id d. bind-Keeps (client.patch_json _ _) _ (h.patch_json _ _) (λ _. pure-Keeps tt);
  send_message = λ m.
      bind-Keeps (create_draft J client base R.created _) _
        (create_draft-Keeps J client h base R.created _)
        (λ draft_id. send_draft-Keeps J client h base draft_id);
  send_draft = λ id. send_draft-Keeps J client h base id;
}
