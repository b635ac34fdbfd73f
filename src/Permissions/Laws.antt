-- ===== src/Permissions/Laws.antt =====
-- The policy table that the daemon reads is the one that was set.
use mail_mcp.Base.{
  ◌≡◌, refl, ◌∙◌, ◌&&◌, none, List, [], ◌∷◌, Result, ok, err, arith, same, if◌then◌else◌, nat_key,
  any,
}
use mail_mcp.Base.Dict.{Dict}
use mail_mcp.Base.State.{M, bind_outcome}
use mail_mcp.Base.Ids.{AccountId, Ulid}
use mail_mcp.Permissions.Category.{Category, category_key}
use mail_mcp.Permissions.Category
use mail_mcp.Permissions.Policy.{Policy, default_policy}
use mail_mcp.Permissions.Policy
use mail_mcp.Permissions.Storage.{Storage, select, upsert}
use mail_mcp.Permissions.Table.{
  Permissions, insert_rows, insert_defaults, policy_for, of_rows, for_account, set, set_defaults,
  install_defaults,
}
use mail_mcp.Permissions.Rows.{insert_rows-upsert}
use mail_mcp.Permissions.Select.{select-upsert_other}

every :
    (d : Category) (p : Policy)
    → (if any (same d) Category.all then default_policy d else p) ≡ default_policy d
every d p = ground arith

bind_outcome-eq-ok :
    {S B : Type 0} (r : Result (Unit {0}) × S) (f : M S B) {b : B} {s' : S}
    → bind_outcome r (λ _. f) ≡ (ok b, s')
    → (t : S) × (r ≡ (ok tt, t)) × (f t ≡ (ok b, s'))
bind_outcome-eq-ok (ok tt, t) f h = (t, refl, h)
bind_outcome-eq-ok (err e, t) f h = cc

module _ (U : Ulid) where
  set_defaults_nil :
      (id : AccountId) (s s' : Storage) {before : Permissions}
      → set_defaults U id [] s ≡ (ok tt, s')
      → (for_account U id s).0 ≡ ok before
      → (for_account U id s').0 ≡ ok before
  unfolding set_defaults
  set_defaults_nil id s s' h r = cc

  to_string-injective : (a b : AccountId) → U.to_string a ≡ U.to_string b → a ≡ b
  to_string-injective a b h = cc (U.from_str-to_string a, U.from_str-to_string b)

  set-eq-ok :
      (id : AccountId) (c : Category) (pol : Policy) (s s' : Storage)
      → set U id c pol s ≡ (ok tt, s')
      → (s'.fault ≡ s.fault)
        × (s'.permissions
            ≡ upsert (U.to_string id) (Category.as_str c) (Policy.as_str pol) s.permissions)
  unfolding set
  set-eq-ok id c pol s s' h = ground arith

  for_account-eq-ok :
      (id : AccountId) (s : Storage) (perms : Permissions)
      → (for_account U id s).0 ≡ ok perms
      → (s.fault ≡ none)
        × (insert_rows (select (U.to_string id) s.permissions) (insert_defaults Category.all [])
            ≡ ok perms.map)
  unfolding for_account of_rows
  for_account-eq-ok id s perms h = ground arith

  for_account-ok :
      (id : AccountId) (s : Storage) (m : Dict Category Policy)
      → s.fault ≡ none
      → insert_rows (select (U.to_string id) s.permissions) (insert_defaults Category.all []) ≡ ok m
      → (for_account U id s).0 ≡ ok (record { map = m })
  unfolding for_account of_rows
  for_account-ok id s m f h = ground arith

  -- What a `set` on one account makes of the table that is read for an account.
  abbrev pub Overrides :
      AccountId → AccountId → Category → Policy → Permissions → Permissions → Type 0
  Overrides id reader c pol before after =
      (d : Category)
      → policy_for after d ≡ (if same reader id && same d c then pol else policy_for before d)

  -- Reading an account's table after a successful `set` gives the policy that was set for that
  -- account and category, and for every other account or category what was read before. The table
  -- must have been readable before: no driver error and no unknown name in the account's rows.
  pub set-for_account :
      (id reader : AccountId) (c : Category) (pol : Policy) (s s' : Storage) (before : Permissions)
      → set U id c pol s ≡ (ok tt, s')
      → (for_account U reader s).0 ≡ ok before
      → (after : Permissions) × ((for_account U reader s').0 ≡ ok after)
        × Overrides id reader c pol before after
  unfolding policy_for
  set-for_account id reader c pol s s' before h r =
      let (same_fault, rows) = set-eq-ok id c pol s s' h in
      let (works, read) = for_account-eq-ok reader s before r in
      elim (nat_key.dec reader id) [
        | yes own ↦
            let (n, loaded, agree, hit) =
              insert_rows-upsert (U.to_string id) c pol s.permissions
                (insert_defaults Category.all []) before.map (rw own at read) in
            (
              record { map = n },
              for_account-ok reader s' n (same_fault ∙ works) (rw (own, rows) loaded),
              λ d. ground (arith, agree d),
            )
        | no other ↦ (
          before,
          for_account-ok reader s' before.map (same_fault ∙ works) (
              rw
                (
                  rows,
                  select-upsert_other (U.to_string id) _ _ (U.to_string reader) s.permissions
                      (λ e. other (to_string-injective reader id e)),
                )
                read),
          λ d. ground arith,
        )
      ]

  set_defaults-cons :
      (id : AccountId) (c : Category) (cs : List Category) (s s' : Storage)
      → set_defaults U id (c ∷ cs) s ≡ (ok tt, s')
      → (t : Storage) × (set U id c (default_policy c) s ≡ (ok tt, t))
        × (set_defaults U id cs t ≡ (ok tt, s'))
  unfolding set_defaults
  set_defaults-cons id c cs s s' h = bind_outcome-eq-ok (set U id c (default_policy c) s) _ h

  set_defaults-for_account :
      (id : AccountId) (cs : List Category) (s s' : Storage) (before : Permissions)
      → set_defaults U id cs s ≡ (ok tt, s')
      → (for_account U id s).0 ≡ ok before
      → (after : Permissions) × ((for_account U id s').0 ≡ ok after)
        × ((d : Category)
            → policy_for after d
              ≡ (if any (same d) cs then default_policy d else policy_for before d))
  set_defaults-for_account id [] s s' before h r = (before, set_defaults_nil id s s' h r, λ d. refl)
  set_defaults-for_account id (c ∷ cs) s s' before h r =
      let (t, first, rest) = set_defaults-cons id c cs s s' h in
      let (middle, r', over) = set-for_account id id c (default_policy c) s t before first r in
      let (after, r'', overs) = set_defaults-for_account id cs t s' middle rest r' in
      (after, r'', λ d. ground (arith, overs d, over d))

  -- After a successful `install_defaults` an account's table gives every category its default
  -- policy, whatever its readable rows said before.
  pub install_defaults-for_account :
      (id : AccountId) (s s' : Storage) (before : Permissions)
      → install_defaults U id s ≡ (ok tt, s')
      → (for_account U id s).0 ≡ ok before
      → (after : Permissions) × ((for_account U id s').0 ≡ ok after)
        × ((d : Category) → policy_for after d ≡ default_policy d)
  unfolding install_defaults
  install_defaults-for_account id s s' before h r =
      let (after, r', over) = set_defaults-for_account id Category.all s s' before h r in
      (after, r', λ d. over d ∙ every d (policy_for before d))
