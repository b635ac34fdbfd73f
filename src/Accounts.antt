-- ===== src/Accounts.antt =====
-- crates/mail-mcp-core/src/accounts.rs and `Account`, `ProviderKind` of types.rs: the account table.
--
-- serde_json's texts and chrono's timestamps are the interface `Codec`. A new id and the clock are
-- arguments.
pub mod Rows
pub mod Lifecycle
use Prim.Native.String.{◌++◌ as concat}
use mail_mcp.Base.{
  ℕ, ◌≡◌, ◌==◌, Bool, not, String, Option, none, some, List, [], ◌∷◌, ◌++◌, Result, ok, err, ◌>>=◌,
  and_then, any, find, filter, map, ok_or, Parsed, parsed, unknown, map_err, internal, not_found,
  storage, if◌then◌else◌, leb,
}
use mail_mcp.Base.State
use mail_mcp.Base.State.{M, lift}
use mail_mcp.Base.Ids.{AccountId, Ulid}
use mail_mcp.Permissions.Storage.{Storage, AccountRow, PermissionRow, statement, has_account}

pub data ProviderKind : Type 0 where
  gmail microsoft365 imap : ProviderKind

-- `ProviderKind::as_str`
unfoldable pub as_str : ProviderKind → String
as_str gmail = "gmail"
as_str microsoft365 = "m365"
as_str imap = "imap"

-- `ProviderKind::from_str`
unfoldable pub from_str : String → Parsed ProviderKind
from_str s =
    if s == "gmail"
    then parsed gmail
    else if s == "m365"
    then parsed microsoft365
    else if s == "imap"
    then parsed imap
    else unknown (concat "unknown provider kind: " s)

pub record Codec : Type 1 where
  pub Value : Type 0
  pub Instant : Type 0
  pub config_text : Value → Result String
  pub config_of : String → Result Value
  pub scopes_text : List String → Result String
  pub scopes_of : String → Result (List String)
  -- `Utc.timestamp_opt(t, 0).single()`
  pub instant : ℕ → Option Instant
  pub config_of-config_text : (v : Value) (t : String) → config_text v ≡ ok t → config_of t ≡ ok v
  pub scopes_of-scopes_text :
      (v : List String) (t : String) → scopes_text v ≡ ok t → scopes_of t ≡ ok v

pub record NewAccount (C : Codec) : Type 0 where
  pub label : String
  pub provider : ProviderKind
  pub email : String
  pub config : C.Value
  pub scopes : List String

pub record Account (C : Codec) : Type 0 where
  pub id : AccountId
  pub label : String
  pub provider : ProviderKind
  pub email : String
  pub config : C.Value
  pub scopes : List String
  pub created_at : C.Instant
  pub last_validated : Option C.Instant

-- ORDER BY created_at ASC, rows of one time in the order of the table.
unfoldable pub insert_by_time : AccountRow → List AccountRow → List AccountRow
insert_by_time row [] = row ∷ []
insert_by_time row (first ∷ rows) =
    let rest = insert_by_time row rows in
    if leb row.created_at first.created_at then row ∷ first ∷ rows else first ∷ rest

unfoldable pub by_time : List AccountRow → List AccountRow
by_time [] = []
by_time (row ∷ rows) = insert_by_time row (by_time rows)

-- DELETE FROM accounts WHERE id = ?1, which takes the account's rows in `permissions` along.
unfoldable pub delete_rows : String → Storage → Storage
delete_rows id s = record s {
  accounts = filter (λ row. not (row.id == id)) s.accounts;
  permissions = filter (λ row. not (row.account_id == id)) s.permissions;
}

-- UPDATE accounts SET last_validated = ?1 WHERE id = ?2
unfoldable pub touch_row : ℕ → String → AccountRow → AccountRow
touch_row now id row = if row.id == id then record row { last_validated = some now } else row

module _ (C : Codec) (U : Ulid) where
  -- `AccountRow::into_account`
  unfoldable pub into_account : AccountRow → Result (Account C)
  into_account row = do
    id ← map_err (U.from_str row.id) (λ e. internal (concat "bad account id in db: " e))
    provider ← map_err (from_str row.provider) (λ e. internal (concat "bad provider in db: " e))
    config ← C.config_of row.config_json
    scopes ← C.scopes_of row.scopes_json
    created_at ← ok_or (C.instant row.created_at) (internal "bad created_at in db")
    ok record {
      id = id;
      label = row.label;
      provider = provider;
      email = row.email;
      config = config;
      scopes = scopes;
      created_at = created_at;
      last_validated = and_then row.last_validated C.instant;
    }

  unfoldable pub into_accounts : List AccountRow → Result (List (Account C))
  into_accounts [] = ok []
  into_accounts (row ∷ rows) = do
    account ← into_account row
    accounts ← into_accounts rows
    ok (account ∷ accounts)

  -- INSERT INTO accounts
  unfoldable pub insert_account : AccountRow → M Storage (Unit {0})
  insert_account row = statement λ s.
      if has_account row.id s
      then (err (storage "UNIQUE constraint failed: accounts.id"), s)
      else (ok tt, record s { accounts = s.accounts ++ row ∷ [] })

  -- `AccountStore::create`
  unfoldable pub create : AccountId → ℕ → NewAccount C → M Storage AccountId
  create id now new = State.◌>>=◌ (lift (C.scopes_text new.scopes)) λ scopes_json.
      State.◌>>=◌ (lift (C.config_text new.config)) λ config_json.
        State.◌>>=◌
          (insert_account (record {
            id = U.to_string id;
            label = new.label;
            provider = as_str new.provider;
            email = new.email;
            config_json = config_json;
            scopes_json = scopes_json;
            created_at = now;
            last_validated = none;
          }))
          λ _. State.pure id

  -- `AccountStore::list`
  unfoldable pub list : M Storage (List (Account C))
  list = statement λ s. (into_accounts (by_time s.accounts), s)

  -- `AccountStore::get`
  unfoldable pub get : AccountId → M Storage (Option (Account C))
  get id = statement λ s. elim (find (λ row. row.id == U.to_string id) s.accounts) [
    | none ↦ (ok none, s)
    | some row ↦ (into_account row >>= (λ account. ok (some account)), s)
  ]

  -- `AccountStore::delete`
  unfoldable pub delete : AccountId → M Storage (Unit {0})
  delete id = statement λ s.
      if has_account (U.to_string id) s
      then (ok tt, delete_rows (U.to_string id) s)
      else (err (not_found (concat "account " (U.to_string id))), s)

  -- `AccountStore::touch_last_validated`
  unfoldable pub touch_last_validated : AccountId → ℕ → M Storage (Unit {0})
  touch_last_validated id now =
      statement
        λ s. (ok tt, record s { accounts = map (touch_row now (U.to_string id)) s.accounts })
