-- ===== src/Examples/Policies.antt =====
-- A database with two accounts.
use mail_mcp.Base.{◌≡◌, refl, [], ◌∷◌, ok, none, string_key, nat_key}
use mail_mcp.Base.Dict.{lookup, insert}
use mail_mcp.Permissions.Category.{Category, read, modify, trash, draft, send, category_key}
use mail_mcp.Permissions.Category
use mail_mcp.Permissions.Policy.{Policy, allow, block, default_policy}
use mail_mcp.Permissions.Policy
use mail_mcp.Permissions.Storage.{AccountRow, Storage, select, update, upsert, has_account}
use mail_mcp.Permissions.Table.{
  Permissions, insert_defaults, insert_rows, policy_for, of_rows, for_account, set, set_defaults,
  install_defaults,
}
use mail_mcp.Permissions.Laws.{Overrides, set-for_account}
use mail_mcp.Examples.Instances.{ulid}

unfoldable pub policies : Unit {0}
unfolding select update upsert has_account insert_defaults insert_rows policy_for of_rows
    for_account set set_defaults install_defaults lookup insert category_key default_policy
    Category.as_str Category.from_str Policy.as_str Policy.from_str
policies = tt

abbrev account : AccountRow
account = record {
  id = "i";
  label = "home";
  provider = "gmail";
  email = "a@example.com";
  config_json = "{}";
  scopes_json = "[]";
  created_at = 0;
  last_validated = none;
}

abbrev pub database : Storage
database = record {
  accounts = account ∷ [];
  permissions =
      record { account_id = "i"; category = "send"; policy = "allow" }
      ∷ record { account_id = "ii"; category = "send"; policy = "block" }
      ∷ [];
  app_state = [];
  fault = none;
}

abbrev after_set : Storage
after_set = (set ulid 1 send block database).1

abbrev table : Permissions
table = record {
  map =
      (read, allow)
      ∷ (modify, allow)
      ∷ (trash, Policy.confirm)
      ∷ (draft, allow)
      ∷ (send, allow)
      ∷ [];
}

set_works : set ulid 1 send block database ≡ (ok tt, after_set)
unfolding policies
set_works = refl

read_works : (for_account ulid 1 database).0 ≡ ok table
unfolding policies
read_works = refl

set-for_account_example :
    (after : Permissions) × ((for_account ulid 1 after_set).0 ≡ ok after)
    × Overrides ulid 1 1 send block table after
set-for_account_example =
    set-for_account ulid 1 1 send block database after_set table set_works read_works

install_works : install_defaults ulid 1 database ≡ (ok tt, (install_defaults ulid 1 database).1)
unfolding policies
install_works = refl
