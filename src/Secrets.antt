-- ===== src/Secrets.antt =====
-- crates/mail-mcp-core/src/secrets.rs: the secrets of the accounts in the OS keychain.
--
-- The `keyring` crate is the interface `Keyring`: entries by service and user name, with the laws
-- that its documentation states.
pub mod Entries
use Prim.Native.String.{◌++◌}
use mail_mcp.Base.{◌≡◌, ◌≢◌, ◌⊎◌, String, Option, none, some, Error, Result, ok, err, keychain}
use mail_mcp.Base.State.{M, ◌>>=◌, ◌>>◌, pure}
use mail_mcp.Base.Ids.{AccountId, Ulid}

pub data KeyKind : Type 0 where
  refresh_token imap_password smtp_password : KeyKind

-- `KeyKind::as_str`
unfoldable pub as_str : KeyKind → String
as_str refresh_token = "refresh_token"
as_str imap_password = "imap_password"
as_str smtp_password = "smtp_password"

-- What a call of the keychain ends with.
pub data Answer (A : Type 0) : Type 0 where
  found : A → Answer A
  no_entry : Answer A
  failed : String → Answer A

-- An entry is written and read under its service and user; a deleted entry is gone; no call on one
-- entry changes another.
pub record Keyring : Type 1 where
  pub Store : Type 0
  pub set_password : (service user value : String) → Store → Result (Unit {0}) × Store
  pub get_password : (service user : String) → Store → Answer String
  pub delete_credential : (service user : String) → Store → Answer (Unit {0}) × Store
  pub get-set :
      (a u v : String) (k k' : Store)
      → set_password a u v k ≡ (ok tt, k')
      → get_password a u k' ≡ found v
  pub get-set_other :
      (a u v b w : String) (k : Store)
      → (b ≢ a) ⊎ (w ≢ u)
      → get_password b w (set_password a u v k).1 ≡ get_password b w k
  pub get-delete :
      (a u : String) (k k' : Store)
      → delete_credential a u k ≡ (found tt, k')
      → get_password a u k' ≡ no_entry
  pub get-delete_none :
      (a u : String) (k k' : Store)
      → delete_credential a u k ≡ (no_entry, k')
      → get_password a u k' ≡ no_entry
  pub get-delete_other :
      (a u b w : String) (k : Store)
      → (b ≢ a) ⊎ (w ≢ u)
      → get_password b w (delete_credential a u k).1 ≡ get_password b w k

module _ (K : Keyring) (U : Ulid) where
  -- `service_name`
  unfoldable pub service_name : AccountId → String
  service_name id = "mail-mcp." ++ U.to_string id

  -- `SecretStore::set`
  unfoldable pub set : AccountId → KeyKind → String → M K.Store (Unit {0})
  set id kind value = K.set_password (service_name id) (as_str kind) value

  -- The match in `get`.
  unfoldable pub get_answer : Answer String → Result (Option String)
  get_answer (found v) = ok (some v)
  get_answer no_entry = ok none
  get_answer (failed e) = err (keychain e)

  -- `SecretStore::get`
  unfoldable pub get : AccountId → KeyKind → K.Store → Result (Option String)
  get id kind k = get_answer (K.get_password (service_name id) (as_str kind) k)

  -- The match in `delete`.
  unfoldable pub delete_answer : Answer (Unit {0}) × K.Store → Result (Unit {0}) × K.Store
  delete_answer (found _, k) = (ok tt, k)
  delete_answer (no_entry, k) = (ok tt, k)
  delete_answer (failed e, k) = (err (keychain e), k)

  -- `SecretStore::delete`
  unfoldable pub delete : AccountId → KeyKind → M K.Store (Unit {0})
  delete id kind k = delete_answer (K.delete_credential (service_name id) (as_str kind) k)

  -- `SecretStore::purge`, which ignores what each deletion ends with.
  unfoldable pub purge : AccountId → K.Store → K.Store
  purge id k = (delete id smtp_password (delete id imap_password (delete id refresh_token k).1).1).1
