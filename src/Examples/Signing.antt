-- ===== src/Examples/Signing.antt =====
-- Accounts that sign in to the daemon and leave it.
use mail_mcp.Base.{
  ◌≡◌, ◌≢◌, refl, String, none, some, [], ◌∷◌, Option, Result, ok, err, not_found, oauth, inl,
  string_key, nat_key,
}
use mail_mcp.Base.Texts.{split}
use mail_mcp.Secrets
use mail_mcp.Base.Dict.{lookup, remove}
use mail_mcp.Base.Ids.{AccountId}
use mail_mcp.Permissions.Category
use mail_mcp.Permissions.Storage.{Storage}
use mail_mcp.Permissions.Table.{insert_defaults, install_defaults}
use mail_mcp.Accounts
use mail_mcp.Ipc.Messages.{account_removed, account_added}
use mail_mcp.Handler.State.{finished, str_param, required, id_param}
use mail_mcp.Handler.Signup.{
  joined, scopes_of, new_account, take_pending, keep_refresh_token, register, complete_oauth,
  remove_account,
}
use mail_mcp.Handler.Removal.{IsForgotten, IsKept, remove_account-IsForgotten}
use mail_mcp.Handler.Completion.{
  IsRegistered, signed_up, complete_oauth-IsRegistered, complete_oauth_once, complete_oauth-orphan,
}
use mail_mcp.Examples.Instances.{channel, ulid}
use mail_mcp.Examples.Documents.{Doc, json}
use mail_mcp.Examples.Mailbox.{Log}
use mail_mcp.Examples.Policies.{policies}
use mail_mcp.Examples.Registering.{registering, codec}
use mail_mcp.Examples.Tokens.{seconds}
use mail_mcp.Examples.Keychain.{ring, ring-IsDeletable}
use mail_mcp.Examples.Daemons.{writers, fresh_tokens, gmail, Daemons, daemon, field}

unfoldable pub signing : Unit {0}
unfolding registering policies str_param required id_param joined scopes_of new_account take_pending
    keep_refresh_token register complete_oauth remove_account
signing = tt

abbrev removed : Daemons
removed =
    (remove_account json codec ulid channel ring seconds Log (field "account_id" "i")
      (daemon none)).1

remove_account-IsForgotten_example :
    IsForgotten json codec ulid channel ring seconds Log 1 removed
    × ((other : AccountId)
        → other ≢ 1
        → IsKept json codec ulid channel ring seconds Log other (daemon none) removed)
    × (removed.sent ≡ account_removed 1 ∷ [])
unfolding signing
remove_account-IsForgotten_example =
    remove_account-IsForgotten json codec ulid channel ring seconds Log (field "account_id" "i") 1
      (daemon none) removed refl refl (ring-IsDeletable 1)

abbrev asked : Doc
asked = field "challenge_id" "c"

-- The daemon after the sign-in that brought, or did not bring, a refresh token.
abbrev signed_in : Option String → Result Doc × Daemons
signed_in refresh =
    complete_oauth json codec ulid channel ring seconds Log writers "{}" gmail 3 7 asked
      (daemon refresh)

complete_oauth-IsRegistered_example :
    IsRegistered json codec ulid channel ring seconds Log writers "{}" gmail 3
      (signed_up json codec ulid channel ring seconds Log writers "{}" gmail 3 7 asked
        (fresh_tokens (some "RT"))
        "b@example.com")
      (fresh_tokens (some "RT"))
      "b@example.com"
      (signed_in (some "RT")).1
    × (lookup "c" (signed_in (some "RT")).1.pending_oauth ≡ none)
    × ((signed_in (some "RT")).1.sent
        ≡ account_added (
            signed_up json codec ulid channel ring seconds Log writers "{}" gmail 3 7 asked
              (fresh_tokens (some "RT"))
              "b@example.com")
          ∷ [])
unfolding signing string_key nat_key remove split Secrets.set
complete_oauth-IsRegistered_example =
    complete_oauth-IsRegistered json codec ulid channel ring seconds Log writers "{}" gmail asked
      "c" 3 7
      (record {
        label_hint = none;
        join = finished (ok (fresh_tokens (some "RT"), "b@example.com"));
      })
      (fresh_tokens (some "RT")) "b@example.com" 7
      (record { map = insert_defaults Category.all [] }) json.null (daemon (some "RT"))
      (signed_in (some "RT")).1 refl refl refl refl refl refl

complete_oauth_once_example :
    complete_oauth json codec ulid channel ring seconds Log writers "{}" gmail 4 8 asked
      (signed_in (some "RT")).1
    ≡ (err (not_found "challenge c"), (signed_in (some "RT")).1)
unfolding signing
complete_oauth_once_example =
    complete_oauth_once json codec ulid channel ring seconds Log writers "{}" gmail asked asked "c"
      3 4 7 8 (daemon (some "RT")) (signed_in (some "RT")).1 refl refl (inl refl)

abbrev orphaned : Storage
orphaned =
    (Accounts.create codec ulid 3 7
      (new_account json codec ulid channel ring seconds Log writers "{}" gmail "" "b@example.com"
        (some "mail"))
      (daemon none).storage).1

complete_oauth-orphan_example :
    (signed_in none ≡ (
      err (
          oauth
            "Google did not return a refresh_token; ensure prompt=consent + access_type=offline"),
      record (daemon none) { storage = (install_defaults ulid 3 orphaned).1; pending_oauth = [] },
    ))
    × ((Accounts.get codec ulid 3 (install_defaults ulid 3 orphaned).1).0
        ≡ ok (
            some (
              signed_up json codec ulid channel ring seconds Log writers "{}" gmail 3 7 asked
                (fresh_tokens none)
                "b@example.com")))
unfolding signing string_key nat_key remove split Secrets.set
complete_oauth-orphan_example =
    complete_oauth-orphan json codec ulid channel ring seconds Log writers "{}" gmail asked "c" 3 7
      (record { label_hint = none; join = finished (ok (fresh_tokens none, "b@example.com")) })
      (fresh_tokens none) "b@example.com" 7 (daemon none) orphaned
      (install_defaults ulid 3 orphaned).1 refl refl refl refl refl refl refl
