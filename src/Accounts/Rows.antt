-- ===== src/Accounts/Rows.antt =====
-- What is read after an account has been created or deleted.
use mail_mcp.Base.{
  ◌≡◌, refl, ◌≢◌, ◌==◌, ==_iff, Bool, true, false, not, String, none, some, List, [], ◌∷◌, ◌++◌,
  arith, any, find, filter, parsed,
}
use mail_mcp.Permissions.Storage.{AccountRow, PermissionRow, select}
use mail_mcp.Accounts.{ProviderKind, gmail, microsoft365, imap, as_str, from_str}

pub from_str-as_str : (k : ProviderKind) → from_str (as_str k) ≡ parsed k
unfolding from_str as_str
from_str-as_str gmail = refl
from_str-as_str microsoft365 = refl
from_str-as_str imap = refl

pub find-append_last :
    {A : Type 0} (p : A → Bool) (xs : List A) (x : A)
    → any p xs ≡ false
    → p x ≡ true
    → find p (xs ++ x ∷ []) ≡ some x
find-append_last p [] x none_before hit = ground arith
find-append_last p (y ∷ xs) x none_before hit = ground (arith, find-append_last p xs x)

pub find-filter_same :
    (key : String) (rows : List AccountRow)
    → find (λ row. row.id == key) (filter (λ row. not (row.id == key)) rows) ≡ none
find-filter_same key [] = refl
find-filter_same key (row ∷ rows) = ground (arith, find-filter_same key rows)

pub find-filter_other :
    (key other : String) (rows : List AccountRow)
    → other ≢ key
    → find (λ row. row.id == other) (filter (λ row. not (row.id == key)) rows)
      ≡ find (λ row. row.id == other) rows
find-filter_other key other [] ne = refl
find-filter_other key other (row ∷ rows) ne =
    ground (arith, find-filter_other key other rows ne, ==_iff row.id key, ==_iff row.id other)

pub select-filter_same :
    (key : String) (rows : List PermissionRow)
    → select key (filter (λ row. not (row.account_id == key)) rows) ≡ []
unfolding select
select-filter_same key [] = refl
select-filter_same key (row ∷ rows) = ground (arith, select-filter_same key rows)

pub select-filter_other :
    (key other : String) (rows : List PermissionRow)
    → other ≢ key
    → select other (filter (λ row. not (row.account_id == key)) rows) ≡ select other rows
unfolding select
select-filter_other key other [] ne = refl
select-filter_other key other (row ∷ rows) ne = ground (
  arith,
  select-filter_other key other rows ne,
  ==_iff row.account_id key,
  ==_iff row.account_id other,
)
