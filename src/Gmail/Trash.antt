-- ===== src/Gmail/Trash.antt =====
-- crates/mail-mcp-core/src/providers/gmail/trash.rs: one request to a message.
use Prim.Native.String.{◌++◌}
use mail_mcp.Base.{String, List, [], ◌∷◌}
use mail_mcp.Base.State.{M, ◌>>=◌, pure}
use mail_mcp.Base.Ids.{MessageId}
use mail_mcp.Json.{Json}
use mail_mcp.Mail.Client.{RestClient}

module _ (J : Json) {S : Type 0} (client : RestClient J.Value S) (base : String) where
  -- The loop of both operations.
  unfoldable pub post_all : (action : String) → List MessageId → M S (Unit {0})
  post_all action [] = pure tt
  post_all action (id ∷ ids) =
      client.post_json (base ++ ("/users/me/messages/" ++ (id ++ ("/" ++ action)))) (J.object [])
      >>= λ _. post_all action ids

  -- `trash_impl`
  unfoldable pub trash : List MessageId → M S (Unit {0})
  trash ids = post_all "trash" ids

  -- `untrash_impl`
  unfoldable pub untrash : List MessageId → M S (Unit {0})
  untrash ids = post_all "untrash" ids
