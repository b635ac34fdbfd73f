-- ===== src/M365/Triage.antt =====
-- crates/mail-mcp-core/src/providers/m365/triage.rs: a loop of requests over the messages.
pub mod Categories
use Prim.Native.String.{◌++◌ as concat}
use mail_mcp.Base.{
  Bool, not, String, Option, none, some, List, [], ◌∷◌, ◌++◌, map, filter, filter_map, unwrap_or,
  and_then, if◌then◌else◌, ◌==◌,
}
use mail_mcp.Base.State.{M, ◌>>=◌, ◌>>◌, pure, lift}
use mail_mcp.Base.Ids.{MessageId, LabelId, FolderId}
use mail_mcp.Json.{Json}
use mail_mcp.Mail.Client.{RestClient}

abbrev pub archive_folder : String
archive_folder = "archive"

abbrev pub trash_folder : String
trash_folder = "deleteditems"

abbrev pub inbox_folder : String
inbox_folder = "inbox"

-- The `format!` of the requests.
unfoldable pub message_url : (base id rest : String) → String
message_url base id rest = concat base (concat "/me/messages/" (concat id rest))

-- `for id in ids { f(id).await?; }`
unfoldable pub for_each :
    {S : Type 0} → (MessageId → M S (Unit {0})) → List MessageId → M S (Unit {0})
for_each f [] = pure tt
for_each f (id ∷ ids) = f id >> for_each f ids

-- The categories that `label_impl` writes for a message.
unfoldable pub toggled : LabelId → Bool → List String → List String
toggled target on existing =
    let next = filter (λ c. not (c == target)) existing in if on then next ++ target ∷ [] else next

module _ (J : Json) where
  -- `existing` of `label_impl`
  unfoldable pub categories_in : J.Value → List String
  categories_in resp =
      unwrap_or
        (and_then (and_then (J.get resp "categories") J.as_array)
          (λ arr. some (filter_map J.as_str arr)))
        []

  -- The body that sets the categories.
  unfoldable pub categories_value : List String → J.Value
  categories_value next = J.object (("categories", J.array (map J.string next)) ∷ [])

module _ (J : Json) {S : Type 0} (client : RestClient J.Value S) (base : String) where
  -- `patch_one`
  unfoldable pub patch_one : MessageId → J.Value → M S (Unit {0})
  patch_one id body = client.patch_json (message_url base id "") body >>= (λ _. pure tt)

  -- `move_one`
  unfoldable pub move_one : MessageId → String → M S (Unit {0})
  move_one id dest =
      client.post_json (message_url base id "/move")
        (J.object (("destinationId", J.string dest) ∷ []))
      >>= (λ _. pure tt)

  -- `mark_read_impl`
  unfoldable pub mark_read : List MessageId → Bool → M S (Unit {0})
  mark_read ids read = for_each (λ id. patch_one id (J.object (("isRead", J.bool read) ∷ []))) ids

  -- `star_impl`
  unfoldable pub star : List MessageId → Bool → M S (Unit {0})
  star ids starred =
      let status = if starred then "flagged" else "notFlagged" in
      for_each
        (λ id.
          patch_one id (J.object (("flag", J.object (("flagStatus", J.string status) ∷ [])) ∷ [])))
        ids

  -- An iteration of `label_impl`.
  unfoldable pub label_one : LabelId → Bool → MessageId → M S (Unit {0})
  label_one label on id = do
    answer ← client.get (message_url base id "?$select=categories")
    resp ← lift (client.json answer)
    patch_one id (categories_value J (toggled label on (categories_in J resp)))

  -- `label_impl`
  unfoldable pub label : List MessageId → LabelId → Bool → M S (Unit {0})
  label ids l on = for_each (label_one l on) ids

  -- `move_to_impl`
  unfoldable pub move_to : List MessageId → FolderId → M S (Unit {0})
  move_to ids folder = for_each (λ id. move_one id folder) ids

  -- `archive_impl`
  unfoldable pub archive : List MessageId → M S (Unit {0})
  archive ids = for_each (λ id. move_one id archive_folder) ids

  -- `trash_impl`
  unfoldable pub trash : List MessageId → M S (Unit {0})
  trash ids = for_each (λ id. move_one id trash_folder) ids

  -- `untrash_impl`
  unfoldable pub untrash : List MessageId → M S (Unit {0})
  untrash ids = for_each (λ id. move_one id inbox_folder) ids
