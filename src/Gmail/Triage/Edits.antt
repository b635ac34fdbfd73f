-- ===== src/Gmail/Triage/Edits.antt =====
-- What the edits of labels do to the messages of a mailbox.
use mail_mcp.Base.{
  ◌≡◌, sym, ap, ◌∙◌, Bool, true, false, ◌||◌, String, List, [], ◌∷◌, any, if◌then◌else◌, ◌==◌,
  ==_iff, ok, arith,
}
use mail_mcp.Base.State.{bind_outcome-eq-ok}
use mail_mcp.Base.Ids.{MessageId, FolderId}
use mail_mcp.Mail.Client.{RestClient}
use mail_mcp.Gmail.Triage.{
  ModifyRequest, other_folders, move_request, modify_url, modify_one, modify_all, move_to,
}

-- What a request makes of one label of a message.
abbrev pub edit : ModifyRequest → String → Bool → Bool
edit req l held =
    if any (λ x. x == l) req.add then true else if any (λ x. x == l) req.remove then false else held

-- Editing twice is editing once.
edit_twice :
    (req : ModifyRequest) (l : String) (held : Bool)
    → edit req l (edit req l held) ≡ edit req l held
edit_twice req l held = ground arith

edit-move_request :
    (folder : FolderId) (l : String) (held : Bool)
    → edit (move_request folder) l held ≡ (
        if folder == l
        then true
        else if l == "INBOX" || (l == "SPAM" || l == "TRASH")
        then false
        else held)
unfolding move_request other_folders
edit-move_request folder l held = ground (
  arith,
  ==_iff folder l,
  ==_iff folder "INBOX",
  ==_iff folder "SPAM",
  ==_iff folder "TRASH",
  ==_iff l "INBOX",
  ==_iff l "SPAM",
  ==_iff l "TRASH",
  ==_iff "INBOX" l,
  ==_iff "SPAM" l,
  ==_iff "TRASH" l,
)

module _ {V S : Type 0} (client : RestClient V S) (body : ModifyRequest → V) (base : String)
    (has : MessageId → String → S → Bool) where
  -- The documented effect of `messages.modify`: an accepted request edits the labels of its message
  -- and of no other.
  abbrev pub Edits : Type 0
  Edits =
      (id : MessageId) (req : ModifyRequest) (s s' : S) (r : client.Response)
      → client.post_json (modify_url base id) (body req) s ≡ (ok r, s')
      → (m : MessageId) (l : String)
      → has m l s' ≡ (if m == id then edit req l (has m l s) else has m l s)

  modify_one-has :
      (id : MessageId) (req : ModifyRequest) (s s' : S)
      → Edits
      → modify_one client body base id req s ≡ (ok tt, s')
      → (m : MessageId) (l : String)
      → has m l s' ≡ (if m == id then edit req l (has m l s) else has m l s)
  unfolding modify_one
  modify_one-has id req s s' edits h m l =
      let (r, t, posted, done) =
        bind_outcome-eq-ok (client.post_json (modify_url base id) (body req) s) _ h in
      ap (has m l) (sym (ap (λ x. x.1) done)) ∙ edits id req s t r posted m l

  pub modify_all-has :
      (ids : List MessageId) (req : ModifyRequest) (s s' : S)
      → Edits
      → modify_all client body base ids req s ≡ (ok tt, s')
      → (m : MessageId) (l : String)
      → has m l s' ≡ (if any (λ id. m == id) ids then edit req l (has m l s) else has m l s)
  unfolding modify_all
  modify_all-has [] req s s' edits h m l = ap (has m l) (sym (ap (λ x. x.1) h))
  modify_all-has (id ∷ ids) req s s' edits h m l =
      let (_, t, first, rest) = bind_outcome-eq-ok (modify_one client body base id req s) _ h in
      let here = modify_one-has id req s t edits (first) m l in
      let there = modify_all-has ids req t s' edits rest m l in
      ground (arith, here, there, edit_twice req l (has m l s))

  -- A successful `move_to` puts each of the messages in the folder and takes it out of the inbox,
  -- the spam and the trash, whichever of them the folder is not; every other label of these messages
  -- and every label of other messages is as before. The server must do what the documentation of
  -- `messages.modify` says.
  pub move_to-has :
      (ids : List MessageId) (folder : FolderId) (s s' : S)
      → Edits
      → move_to client body base ids folder s ≡ (ok tt, s')
      → (m : MessageId) (l : String)
      → has m l s' ≡ (
          if any (λ id. m == id) ids
          then (if folder == l
              then true
              else if l == "INBOX" || (l == "SPAM" || l == "TRASH")
              then false
              else has m l s)
          else has m l s)
  unfolding move_to move_request other_folders
  move_to-has ids folder s s' edits h m l =
      modify_all-has ids (move_request folder) s s' edits h m l
      ∙ ap (λ b. if any (λ id. m == id) ids then b else has m l s)
          (edit-move_request folder l (has m l s))
