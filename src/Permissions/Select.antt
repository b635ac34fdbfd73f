-- ===== src/Permissions/Select.antt =====
-- The rows of one account under an upsert into the permissions table.
use mail_mcp.Base.{
  ◌≡◌, refl, ◌≢◌, String, Bool, ◌==◌, ==_iff, List, [], ◌∷◌, ◌++◌, any, arith, if◌then◌else◌,
}
use mail_mcp.Permissions.Category.{category_key}
use mail_mcp.Permissions.Storage.{PermissionRow, has_key, select, update, upsert}

abbrev pub names : String → String × String → Bool
names category (cat, _) = cat == category

-- The update of the selected rows of one account.
unfoldable pub update_rows : String → String → List (String × String) → List (String × String)
update_rows category policy [] = []
update_rows category policy ((cat, pol) ∷ rows) =
    (cat, if cat == category then policy else pol) ∷ update_rows category policy rows

module _ (account category policy : String) where
  pub select-update :
      (rows : List PermissionRow)
      → select account (update account category policy rows)
        ≡ update_rows category policy (select account rows)
  unfolding select update update_rows
  select-update [] = refl
  select-update (row ∷ rows) = ground (arith, select-update rows)

  pub any-select :
      (rows : List PermissionRow)
      → any (names category) (select account rows) ≡ any (has_key account category) rows
  unfolding select
  any-select [] = refl
  any-select (row ∷ rows) = ground (arith, any-select rows)

  pub select-append :
      (rows : List PermissionRow) (new : PermissionRow)
      → select account (rows ++ new ∷ []) ≡ select account rows ++ select account (new ∷ [])
  unfolding select
  select-append [] new = refl
  select-append (row ∷ rows) new = ground (arith, select-append rows new)

  select-update_other :
      (other : String) (rows : List PermissionRow)
      → other ≢ account
      → select other (update account category policy rows) ≡ select other rows
  unfolding select update
  select-update_other other [] ne = refl
  select-update_other other (row ∷ rows) ne = ground (
    arith,
    select-update_other other rows,
    ==_iff row.account_id other,
    ==_iff row.account_id account,
  )

  select-append_other :
      (other : String) (rows : List PermissionRow)
      → other ≢ account
      → select other
          (rows ++ record { account_id = account; category = category; policy = policy } ∷ [])
        ≡ select other rows
  unfolding select
  select-append_other other [] ne = ground (arith, ==_iff account other)
  select-append_other other (row ∷ rows) ne = ground (arith, select-append_other other rows)

  pub select-upsert_other :
      (other : String) (rows : List PermissionRow)
      → other ≢ account
      → select other (upsert account category policy rows) ≡ select other rows
  unfolding upsert
  select-upsert_other other rows ne =
      ground (arith, select-update_other other rows, select-append_other other rows)

pub select_new :
    (account category policy : String)
    → select account (record { account_id = account; category = category; policy = policy } ∷ [])
      ≡ (category, policy) ∷ []
unfolding select
select_new account category policy = ground (arith, ==_iff account account)
