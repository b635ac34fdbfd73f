-- ===== src/Mail/Keeping.antt =====
-- Properties of the remote side that every request, and every operation of a provider, keeps.
use mail_mcp.Base.{String, List, [], ◌∷◌, Result, Bool}
use mail_mcp.Base.Ids.{ThreadId, MessageId, DraftId, LabelId, FolderId}
use mail_mcp.Base.Keeps.{Keeps, bind-Keeps, lift-Keeps}
use mail_mcp.Base.State.{lift}
use mail_mcp.Mail.Types.{SearchQuery, DraftInput, OutgoingMessage}
use mail_mcp.Mail.Client.{RestClient, fetch}
use mail_mcp.Mail.Provider.{MailProvider}
use mail_mcp.Mail.Operation.{Operation, perform, perform_all}

pub record IsKept {V S : Type 0} (P : S → Type 0) (client : RestClient V S) : Type 0 where
  pub get : (url : String) → Keeps P (client.get url)
  pub post_json : (url : String) (body : V) → Keeps P (client.post_json url body)
  pub put_json : (url : String) (body : V) → Keeps P (client.put_json url body)
  pub patch_json : (url : String) (body : V) → Keeps P (client.patch_json url body)
  pub delete : (url : String) → Keeps P (client.delete url)

pub record IsKeeping {S : Type 0} (P : S → Type 0) (mail : MailProvider S) : Type 0 where
  pub search : (q : SearchQuery) → Keeps P (mail.search q)
  pub get_thread : (id : ThreadId) → Keeps P (mail.get_thread id)
  pub get_message : (id : MessageId) → Keeps P (mail.get_message id)
  pub list_folders : Keeps P mail.list_folders
  pub list_labels : Keeps P mail.list_labels
  pub list_drafts : Keeps P mail.list_drafts
  pub mark_read : (ids : List MessageId) (read : Bool) → Keeps P (mail.mark_read ids read)
  pub star : (ids : List MessageId) (starred : Bool) → Keeps P (mail.star ids starred)
  pub label : (ids : List MessageId) (l : LabelId) (on : Bool) → Keeps P (mail.label ids l on)
  pub move_to : (ids : List MessageId) (folder : FolderId) → Keeps P (mail.move_to ids folder)
  pub archive : (ids : List MessageId) → Keeps P (mail.archive ids)
  pub trash : (ids : List MessageId) → Keeps P (mail.trash ids)
  pub untrash : (ids : List MessageId) → Keeps P (mail.untrash ids)
  pub create_draft : (d : DraftInput) → Keeps P (mail.create_draft d)
  pub update_draft : (id : DraftId) (d : DraftInput) → Keeps P (mail.update_draft id d)
  pub send_message : (m : OutgoingMessage) → Keeps P (mail.send_message m)
  pub send_draft : (id : DraftId) → Keeps P (mail.send_draft id)

module _ {V S : Type 0} {P : S → Type 0} (client : RestClient V S) (h : IsKept P client) where
  pub fetch-Keeps :
      {A : Type 0} (read : V → Result A) (url : String) → Keeps P (fetch client read url)
  fetch-Keeps read url = bind-Keeps (client.get url) _ (h.get url) λ resp.
      bind-Keeps (lift (client.json resp)) _ (lift-Keeps (client.json resp))
        λ v. lift-Keeps (read v)

module _ {S : Type 0} {P : S → Type 0} {mail : MailProvider S} (h : IsKeeping P mail) where
  perform-Keeps : (op : Operation) (s : S) → P s → P (perform mail op s)
  unfolding perform
  perform-Keeps (Operation.search q) s p = (h.search q).at s p
  perform-Keeps (Operation.get_thread id) s p = (h.get_thread id).at s p
  perform-Keeps (Operation.get_message id) s p = (h.get_message id).at s p
  perform-Keeps Operation.list_folders s p = h.list_folders.at s p
  perform-Keeps Operation.list_labels s p = h.list_labels.at s p
  perform-Keeps Operation.list_drafts s p = h.list_drafts.at s p
  perform-Keeps (Operation.mark_read ids read) s p = (h.mark_read ids read).at s p
  perform-Keeps (Operation.star ids starred) s p = (h.star ids starred).at s p
  perform-Keeps (Operation.label ids l on) s p = (h.label ids l on).at s p
  perform-Keeps (Operation.move_to ids folder) s p = (h.move_to ids folder).at s p
  perform-Keeps (Operation.archive ids) s p = (h.archive ids).at s p
  perform-Keeps (Operation.trash ids) s p = (h.trash ids).at s p
  perform-Keeps (Operation.untrash ids) s p = (h.untrash ids).at s p
  perform-Keeps (Operation.create_draft d) s p = (h.create_draft d).at s p
  perform-Keeps (Operation.update_draft id d) s p = (h.update_draft id d).at s p
  perform-Keeps (Operation.send_message m) s p = (h.send_message m).at s p
  perform-Keeps (Operation.send_draft id) s p = (h.send_draft id).at s p

  pub perform_all-Keeps : (ops : List Operation) (s : S) → P s → P (perform_all mail ops s)
  unfolding perform_all
  perform_all-Keeps [] s p = p
  perform_all-Keeps (op ∷ ops) s p =
      perform_all-Keeps ops (perform mail op s) (perform-Keeps op s p)
