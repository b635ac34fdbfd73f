-- ===== src/Permissions/Storage.antt =====
-- storage.rs and migrations/: the SQLite tables, as lists of rows. The SQL statements are those of
-- storage.rs, accounts.rs and permissions/mod.rs, read as SQL; `fault` is the driver's error, which
-- every statement of a broken database returns. A `created_at` is a count of seconds since 1970: the
-- column is an i64, of which a clock before that year is left out.
use Prim.Native.String.{String}
use mail_mcp.Base.{
  ℕ, string_key, Bool, ◌&&◌, ◌==◌, Option, none, some, List, [], ◌∷◌, ◌++◌, any, if◌then◌else◌, ok,
  err, storage,
}
use mail_mcp.Base.Dict.{Dict, lookup, insert}
use mail_mcp.Base.State.{M}

pub record AccountRow : Type 0 where
  pub id : String
  pub label : String
  pub provider : String
  pub email : String
  pub config_json : String
  pub scopes_json : String
  pub created_at : ℕ
  pub last_validated : Option ℕ

pub record PermissionRow : Type 0 where
  pub account_id : String
  pub category : String
  pub policy : String

pub record Storage : Type 0 where
  pub accounts : List AccountRow
  pub permissions : List PermissionRow
  pub app_state : Dict String String
  pub fault : Option String

-- Run one statement: nothing is done when the driver fails.
abbrev pub statement : {A : Type 0} → M Storage A → M Storage A
statement m s = elim s.fault [ some message ↦ (err (storage message), s) | none ↦ m s ]

-- SELECT category, policy FROM permissions WHERE account_id = ?1
unfoldable pub select : String → List PermissionRow → List (String × String)
select account [] = []
select account (row ∷ rows) =
    let rest = select account rows in
    if row.account_id == account then (row.category, row.policy) ∷ rest else rest

abbrev pub has_key : String → String → PermissionRow → Bool
has_key account category row = row.account_id == account && row.category == category

-- DO UPDATE SET policy = excluded.policy
unfoldable pub update : String → String → String → List PermissionRow → List PermissionRow
update account category policy [] = []
update account category policy (row ∷ rows) =
    (if has_key account category row then record row { policy = policy } else row)
    ∷ update account category policy rows

-- INSERT … ON CONFLICT(account_id, category) DO UPDATE …
unfoldable pub upsert : String → String → String → List PermissionRow → List PermissionRow
upsert account category policy rows =
    if any (has_key account category) rows
    then update account category policy rows
    else rows ++ record { account_id = account; category = category; policy = policy } ∷ []

-- REFERENCES accounts(id)
unfoldable pub has_account : String → Storage → Bool
has_account account s = any (λ row. row.id == account) s.accounts

-- `set_app_state`
unfoldable pub set_app_state : String → String → M Storage (Unit {0})
set_app_state key value =
    statement λ s. (ok tt, record s { app_state = insert key value s.app_state })

-- `get_app_state`
unfoldable pub get_app_state : String → M Storage (Option String)
get_app_state key = statement λ s. (ok (lookup key s.app_state), s)
