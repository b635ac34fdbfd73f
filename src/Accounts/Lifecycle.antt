-- ===== src/Accounts/Lifecycle.antt =====
-- An account from its creation to its deletion.
use mail_mcp.Base.{
  ℕ, ◌≡◌, refl, ◌≢◌, inl, inr, ◌==◌, ==_iff, false, String, none, some, [], ◌∷◌, ◌++◌, ok, arith,
  find, Result-cases,
}
use mail_mcp.Base.Ids.{AccountId, Ulid}
use mail_mcp.Permissions.Storage.{Storage, AccountRow, has_account, select}
use mail_mcp.Accounts.{
  as_str, Codec, NewAccount, Account, delete_rows, into_account, insert_account, create, get,
  delete,
}
use mail_mcp.Accounts.Rows.{
  from_str-as_str, find-append_last, find-filter_same, find-filter_other, select-filter_same,
  select-filter_other,
}

module _ (C : Codec) (U : Ulid) where
  pub to_string-injective : (a b : AccountId) → U.to_string a ≡ U.to_string b → a ≡ b
  to_string-injective a b h = cc (U.from_str-to_string a, U.from_str-to_string b)

  abbrev pub new_row : AccountId → ℕ → NewAccount C → String → String → AccountRow
  new_row id now new scopes_json config_json = record {
    id = U.to_string id;
    label = new.label;
    provider = as_str new.provider;
    email = new.email;
    config_json = config_json;
    scopes_json = scopes_json;
    created_at = now;
    last_validated = none;
  }

  pub create-eq-ok :
      (id : AccountId) (now : ℕ) (new : NewAccount C) (s s' : Storage)
      → create C U id now new s ≡ (ok id, s')
      → (scopes_json : String) × (config_json : String) × (C.scopes_text new.scopes
          ≡ ok scopes_json)
        × (C.config_text new.config ≡ ok config_json)
        × (s.fault ≡ none)
        × (has_account (U.to_string id) s ≡ false)
        × (s'
            ≡ record s { accounts = s.accounts ++ new_row id now new scopes_json config_json ∷ [] })
  unfolding create insert_account
  create-eq-ok id now new s s' h = elim (Result-cases (C.scopes_text new.scopes)) [
    | inr (e, bad) ↦ ground (arith, bad)
    | inl (scopes_json, scopes) ↦ elim (Result-cases (C.config_text new.config)) [
      | inr (e, bad) ↦ ground (arith, scopes, bad)
      | inl (config_json, config) ↦ (
        scopes_json,
        config_json,
        scopes,
        config,
        ground (arith, scopes, config),
        ground (arith, scopes, config),
        ground (arith, scopes, config),
      )
    ]
  ]

  -- The account that `create` describes.
  abbrev pub created : AccountId → C.Instant → NewAccount C → Account C
  created id at new = record {
    id = id;
    label = new.label;
    provider = new.provider;
    email = new.email;
    config = new.config;
    scopes = new.scopes;
    created_at = at;
    last_validated = none;
  }

  new_row-into_account :
      (id : AccountId) (now : ℕ) (new : NewAccount C) (scopes_json config_json : String)
      (at : C.Instant)
      → C.scopes_text new.scopes ≡ ok scopes_json
      → C.config_text new.config ≡ ok config_json
      → C.instant now ≡ some at
      → into_account C U (new_row id now new scopes_json config_json) ≡ ok (created id at new)
  unfolding into_account
  new_row-into_account id now new scopes_json config_json at scopes config clock = rw (
    U.from_str-to_string id,
    from_str-as_str new.provider,
    C.config_of-config_text new.config config_json config,
    C.scopes_of-scopes_text new.scopes scopes_json scopes,
    clock,
  )

  get-found :
      (id : AccountId) (s : Storage) (row : AccountRow) (account : Account C)
      → s.fault ≡ none
      → find (λ r. r.id == U.to_string id) s.accounts ≡ some row
      → into_account C U row ≡ ok account
      → get C U id s ≡ (ok (some account), s)
  unfolding get
  get-found id s row account works found read = ground arith

  -- After a successful `create`, `get` on the new id returns the account that was described: the
  -- provider kind, the configuration and the scopes survive their texts in the row. The clock must
  -- show a time that chrono can represent.
  pub create-get :
      (id : AccountId) (now : ℕ) (new : NewAccount C) (s s' : Storage) (at : C.Instant)
      → create C U id now new s ≡ (ok id, s')
      → C.instant now ≡ some at
      → get C U id s' ≡ (ok (some (created id at new)), s')
  unfolding has_account
  create-get id now new s s' at h clock =
      let (scopes_json, config_json, scopes, config, works, fresh, after) =
        create-eq-ok id now new s s' h in
      let row = new_row id now new scopes_json config_json in
      rw after (
        get-found id (record s { accounts = s.accounts ++ row ∷ [] }) row (created id at new) works
          (find-append_last (λ r. r.id == U.to_string id) s.accounts row fresh
            ((==_iff (U.to_string id) (U.to_string id)).1 refl))
          (new_row-into_account id now new scopes_json config_json at scopes config clock))

  delete-eq-ok :
      (id : AccountId) (s s' : Storage)
      → delete C U id s ≡ (ok tt, s')
      → (s.fault ≡ none) × (s' ≡ delete_rows (U.to_string id) s)
  unfolding delete
  delete-eq-ok id s s' h = ground arith

  get-delete_rows :
      (id : AccountId) (s : Storage)
      → s.fault ≡ none
      → (get C U id (delete_rows (U.to_string id) s)).0 ≡ ok none
  unfolding get delete_rows
  get-delete_rows id s works = ground (arith, find-filter_same (U.to_string id) s.accounts)

  get-delete_rows_other :
      (id other : AccountId) (s : Storage)
      → other ≢ id
      → (get C U other (delete_rows (U.to_string id) s)).0 ≡ (get C U other s).0
  unfolding get delete_rows
  get-delete_rows_other id other s ne = ground (
    arith,
    find-filter_other (U.to_string id) (U.to_string other) s.accounts
        (λ e. ne (to_string-injective other id e)),
  )

  -- A successful `delete` removes the account and every policy stored for it, and nothing else:
  -- `get` no longer finds it, no permission row of it is left for an account of the same id to
  -- inherit, and every other account and its permission rows read as before.
  pub delete-get :
      (id : AccountId) (s s' : Storage)
      → delete C U id s ≡ (ok tt, s')
      → ((get C U id s').0 ≡ ok none)
        × (select (U.to_string id) s'.permissions ≡ [])
        × ((other : AccountId)
            → other ≢ id
            → ((get C U other s').0 ≡ (get C U other s).0)
              × (select (U.to_string other) s'.permissions
                  ≡ select (U.to_string other) s.permissions))
  unfolding delete_rows
  delete-get id s s' h =
      let (works, after) = delete-eq-ok id s s' h in
      rw after (
        get-delete_rows id s works,
        select-filter_same (U.to_string id) s.permissions,
        λ other ne. (
          get-delete_rows_other id other s ne,
          select-filter_other (U.to_string id) (U.to_string other) s.permissions
              (λ e. ne (to_string-injective other id e)),
        ),
      )
