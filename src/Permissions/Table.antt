-- ===== src/Permissions/Table.antt =====
-- permissions/mod.rs, lines 108 to 183: `Permissions` and its operations.
use Prim.Native.String.{◌++◌}
use mail_mcp.Base.{
  String, List, [], ◌∷◌, Result, ok, err, internal, storage, ◌>>=◌, if◌then◌else◌, unwrap_or,
  map_err,
}
use mail_mcp.Base.Dict.{Dict, lookup, insert}
use mail_mcp.Base.State.{M}
use mail_mcp.Base.State
use mail_mcp.Base.Ids.{AccountId, Ulid}
use mail_mcp.Permissions.Category.{Category, category_key}
use mail_mcp.Permissions.Category
use mail_mcp.Permissions.Policy.{Policy, default_policy}
use mail_mcp.Permissions.Policy
use mail_mcp.Permissions.Storage.{Storage, statement, select, upsert, has_account}

pub record Permissions : Type 0 where
  pub map : Dict Category Policy

-- The loop over `Category::ALL` that `for_account` and `with_defaults` begin with.
unfoldable pub insert_defaults : List Category → Dict Category Policy → Dict Category Policy
insert_defaults [] m = m
insert_defaults (c ∷ cs) m = insert_defaults cs (insert c (default_policy c) m)

-- The loop of `for_account` over the rows: a later row replaces an earlier one.
unfoldable pub insert_rows :
    List (String × String) → Dict Category Policy → Result (Dict Category Policy)
insert_rows [] m = ok m
insert_rows ((cat, pol) ∷ rows) m = do
  category ← map_err (Category.from_str cat) (λ e. internal ("bad category in db: " ++ e))
  policy ← map_err (Policy.from_str pol) (λ e. internal ("bad policy in db: " ++ e))
  insert_rows rows (insert category policy m)

-- `with_defaults`
unfoldable pub with_defaults : Permissions
with_defaults = record { map = insert_defaults Category.all [] }

-- `override_for`
unfoldable pub override_for : Category → Policy → Permissions → Permissions
override_for c p perms = record { map = insert c p perms.map }

-- `policy_for`
unfoldable pub policy_for : Permissions → Category → Policy
policy_for perms c = unwrap_or (lookup c perms.map) (default_policy c)

module _ (U : Ulid) where
  -- What `for_account` makes of the rows that it fetched.
  unfoldable pub of_rows : List (String × String) → Result Permissions
  of_rows rows = do m ← insert_rows rows (insert_defaults Category.all []); ok (record { map = m })

  -- `Permissions::for_account`
  unfoldable pub for_account : AccountId → M Storage Permissions
  unfolding of_rows
  for_account id = statement λ s. (of_rows (select (U.to_string id) s.permissions), s)

  -- `Permissions::set`
  unfoldable pub set : AccountId → Category → Policy → M Storage (Unit {0})
  set id c p = statement λ s.
      if has_account (U.to_string id) s
      then (
        ok tt,
        record s {
          permissions = upsert (U.to_string id) (Category.as_str c) (Policy.as_str p) s.permissions;
        },
      )
      else (err (storage "FOREIGN KEY constraint failed"), s)

  -- The loop of `install_defaults`.
  unfoldable pub set_defaults : AccountId → List Category → M Storage (Unit {0})
  set_defaults id [] = State.pure tt
  set_defaults id (c ∷ cs) = State.◌>>◌ (set id c (default_policy c)) (set_defaults id cs)

  -- `Permissions::install_defaults`
  unfoldable pub install_defaults : AccountId → M Storage (Unit {0})
  unfolding set_defaults
  install_defaults id = set_defaults id Category.all
