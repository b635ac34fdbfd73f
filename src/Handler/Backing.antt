-- ===== src/Handler/Backing.antt =====
-- The registry only has providers of stored accounts.
use Prim.Native.String.{◌++◌ as concat}
use mail_mcp.Base.{
  ℕ, ◌≡◌, refl, sym, ap, ◌∙◌, ◌≢◌, ◌⊎◌, inl, inr, Bool, true, false, ◌==◌, String, none, List, [],
  ◌∷◌, ok, err, Error, storage, not_found, unwrap_or, string_key, arith, nat_key, Bool-cases,
  Result-cases, Option-cases, ==_iff, any, filter, not, ◌||◌, ◌++◌,
}
use mail_mcp.Base.Dict.{lookup, lookup-insert, remove, lookup-remove}
use mail_mcp.Base.Ids.{AccountId, Ulid}
use mail_mcp.Json.{Json}
use mail_mcp.Permissions.Storage.{Storage, AccountRow, has_account}
use mail_mcp.Permissions.Table.{for_account, set, set_defaults, install_defaults}
use mail_mcp.Permissions.Category.{Category}
use mail_mcp.Permissions.Category
use mail_mcp.Permissions.Policy.{default_policy}
use mail_mcp.Accounts
use mail_mcp.Accounts.{Codec, NewAccount, insert_account, delete_rows}
use mail_mcp.Approvals.{Oneshot}
use mail_mcp.Oauth.{Chrono, OAuthTokens}
use mail_mcp.Secrets.{Keyring}
use mail_mcp.Mail.Provider.{MailProvider}
use mail_mcp.Ipc.Messages.{McpEndpointInfo, Writers}
use mail_mcp.Handler.State.{Daemon, required, str_param, id_param}
use mail_mcp.Handler.Signup.{
  joined, new_account, complete_oauth, remove_account, take_pending, keep_refresh_token, register,
}
use mail_mcp.Handler.Methods.{permissions_get, permissions_set}
use mail_mcp.Accounts.Lifecycle.{new_row, to_string-injective, create-eq-ok}
use mail_mcp.Handler.Registration.{create-cases, get-storage, complete_oauth-take}

module _ (J : Json) (C : Codec) (U : Ulid) (O : Oneshot) (K : Keyring) (T : Chrono) (S : Type 0)
    (W : Writers J C) (empty_config : C.Value)
    (gmail : AccountId → OAuthTokens T → String → MailProvider S) (version : String)
    (mcp_endpoint : McpEndpointInfo) where
  -- Every provider of the registry serves an account of the database.
  abbrev pub IsBacked : Daemon J.Value C O K T S → Type 0
  IsBacked d =
      (id : AccountId)
      → has_account (U.to_string id) d.storage ≡ false
      → lookup id d.providers ≡ none

  -- The accounts and the providers are the same in both.
  abbrev pub SameAccounts : Daemon J.Value C O K T S → Daemon J.Value C O K T S → Type 0
  SameAccounts d d' = (d'.storage.accounts ≡ d.storage.accounts) × (d'.providers ≡ d.providers)

  pub SameAccounts-IsBacked :
      (d d' : Daemon J.Value C O K T S) → SameAccounts d d' → IsBacked d → IsBacked d'
  unfolding has_account
  SameAccounts-IsBacked d d' e backed id missing =
      ap (lookup id) (e.1) ∙ backed id (rw (sym e.0) missing)

  pub permissions_get-SameAccounts :
      (params : J.Value) (d : Daemon J.Value C O K T S)
      → SameAccounts d (permissions_get J C U O K T S params d).1
  unfolding permissions_get for_account
  permissions_get-SameAccounts params d = ground arith

  pub permissions_set-SameAccounts :
      (params : J.Value) (d : Daemon J.Value C O K T S)
      → SameAccounts d (permissions_set J C U O K T S params d).1
  unfolding permissions_set set
  permissions_set-SameAccounts params d = ground arith

  set_defaults-accounts :
      (id : AccountId) (cs : List Category) (s : Storage)
      → (set_defaults U id cs s).1.accounts ≡ s.accounts
  unfolding set_defaults set
  set_defaults-accounts id [] s = refl
  set_defaults-accounts id (c ∷ cs) s =
      ground (arith, set_defaults-accounts id cs (set U id c (default_policy c) s).1)

  install_defaults-accounts :
      (id : AccountId) (s : Storage) → (install_defaults U id s).1.accounts ≡ s.accounts
  unfolding install_defaults
  install_defaults-accounts id s = set_defaults-accounts id Category.all s

  any-append :
      (p : AccountRow → Bool) (xs : List AccountRow) (y : AccountRow)
      → any p (xs ++ y ∷ []) ≡ (any p xs || p y)
  any-append p [] y = ground arith
  any-append p (x ∷ xs) y = ground (arith, any-append p xs y)

  create-has_account :
      (id : AccountId) (now : ℕ) (added : NewAccount C) (s : Storage)
      → (Accounts.create C U id now added s).0 ≡ ok id
      → has_account (U.to_string id) (Accounts.create C U id now added s).1 ≡ true
  unfolding has_account
  create-has_account id now added s h =
      let (scopes_json, config_json, _, _, _, _, after) =
        create-eq-ok C U id now added s (Accounts.create C U id now added s).1
          (ap (λ r. (r, (Accounts.create C U id now added s).1)) h) in
      rw after (
        any-append (λ row. row.id == U.to_string id) s.accounts
          (new_row C U id now added scopes_json config_json)
        ∙ ground (arith, ==_iff (U.to_string id) (U.to_string id)))

  create-eq-err :
      (id : AccountId) (now : ℕ) (added : NewAccount C) (s : Storage) (e : Error)
      → (Accounts.create C U id now added s).0 ≡ err e
      → (Accounts.create C U id now added s).1 ≡ s
  unfolding Accounts.create insert_account
  create-eq-err id now added s e h = ground arith

  has_account-create :
      (id : AccountId) (x : String) (now : ℕ) (added : NewAccount C) (s : Storage)
      → has_account x (Accounts.create C U id now added s).1 ≡ false
      → has_account x s ≡ false
  unfolding has_account
  has_account-create id x now added s h =
      elim (create-cases J C U O K T S W empty_config gmail id now added s) [
        | inr (e, bad) ↦ rw (sym (create-eq-err id now added s e bad)) h
        | inl made ↦
            let (scopes_json, config_json, _, _, _, _, after) =
              create-eq-ok C U id now added s (Accounts.create C U id now added s).1
                (ap (λ r. (r, (Accounts.create C U id now added s).1)) made) in
            ground (
              arith,
              any-append (λ row. row.id == x) s.accounts
                  (new_row C U id now added scopes_json config_json),
              ap (λ t. any (λ row. row.id == x) t.accounts) after,
            )
      ]

  any-delete :
      (x id : String) (rows : List AccountRow)
      → x ≢ id
      → any (λ row. row.id == x) (filter (λ row. not (row.id == id)) rows)
        ≡ any (λ row. row.id == x) rows
  any-delete x id [] ne = refl
  any-delete x id (row ∷ rows) ne =
      ground (arith, any-delete x id rows ne, ==_iff row.id x, ==_iff row.id id)

  module _ (id : AccountId) (now : ℕ) (label : String) (tokens : OAuthTokens T) (email : String)
      (d : Daemon J.Value C O K T S) where
    abbrev added : NewAccount C
    added = new_account J C U O K T S W empty_config gmail label email tokens.scope

    abbrev created_rows : Storage
    created_rows = (Accounts.create C U id now added d.storage).1

    abbrev registered : Daemon J.Value C O K T S
    registered = (register J C U O K T S W empty_config gmail id now label tokens email d).1

    register-accounts : registered.storage.accounts ≡ created_rows.accounts
    unfolding register keep_refresh_token
    register-accounts =
        elim (create-cases J C U O K T S W empty_config gmail id now added d.storage) [
          | inr (e, bad) ↦ ground (arith, bad)
          | inl made ↦ ground (
            arith,
            made,
            install_defaults-accounts id created_rows,
            get-storage J C U O K T S W empty_config gmail id
                (install_defaults U id created_rows).1,
          )
        ]

    register-lookup :
        (x : AccountId)
        → ((Accounts.create C U id now added d.storage).0 ≡ ok id → x ≢ id)
        → lookup x registered.providers ≡ lookup x d.providers
    unfolding register keep_refresh_token
    register-lookup x other =
        elim (create-cases J C U O K T S W empty_config gmail id now added d.storage) [
          | inr (e, bad) ↦ ground (arith, bad)
          | inl made ↦
              let ne = other made in
              ground (arith, made, ne, lookup-insert x id (gmail id tokens email) d.providers)
        ]

    register-IsBacked : IsBacked d → IsBacked registered
    unfolding has_account
    register-IsBacked backed x missing =
        let gone = ap (any (λ row. row.id == U.to_string x)) (sym register-accounts) ∙ missing in
        register-lookup x (λ made e.
          let present =
            ap (λ y. any (λ row. row.id == U.to_string y) created_rows.accounts) e
            ∙ create-has_account id now added d.storage made in
          cc (present, gone))
        ∙ backed x (has_account-create id (U.to_string x) now added d.storage gone)

  pub complete_oauth-IsBacked :
      (params : J.Value) (id : AccountId) (now : ℕ) (d : Daemon J.Value C O K T S)
      → IsBacked d
      → IsBacked (complete_oauth J C U O K T S W empty_config gmail id now params d).1
  unfolding complete_oauth take_pending
  complete_oauth-IsBacked params id now d backed =
      let unchanged =
        SameAccounts-IsBacked d
          (complete_oauth J C U O K T S W empty_config gmail id now params d).1 in
      elim (Result-cases (required J params "challenge_id")) [
        | inr (e, bad) ↦ unchanged (ground (arith, bad)) backed
        | inl (cid, named) ↦ elim (Option-cases (lookup cid d.pending_oauth)) [
          | inl missing ↦ unchanged (ground (arith, named, missing)) backed
          | inr (p, waiting) ↦ elim (Result-cases (joined p.join)) [
            | inr (e, failed) ↦ unchanged (ground (arith, named, waiting, failed)) backed
            | inl ((tokens, email), done) ↦
                rw
                  (complete_oauth-take J C U O K T S W empty_config gmail params cid id now p tokens
                    email d named waiting done)
                  (register-IsBacked id now (unwrap_or (str_param J params "label") "") tokens email
                    (record d { pending_oauth = remove cid d.pending_oauth }) backed)
          ]
        ]
      ]

  delete-cases :
      (id : AccountId) (s : Storage)
      → ((e : Error) × (Accounts.delete C U id s ≡ (err e, s)))
        ⊎ (Accounts.delete C U id s ≡ (ok tt, delete_rows (U.to_string id) s))
  unfolding Accounts.delete has_account delete_rows
  delete-cases id s = elim (Option-cases s.fault) [
    | inr (e, broken) ↦ inl (storage e, rw broken)
    | inl works ↦ elim (Bool-cases (has_account (U.to_string id) s)) [
      | inl present ↦ inr (rw (works, present))
      | inr absent ↦ inl (not_found (concat "account " (U.to_string id)), rw (works, absent))
    ]
  ]

  pub remove_account-IsBacked :
      (params : J.Value) (d : Daemon J.Value C O K T S)
      → IsBacked d
      → IsBacked (remove_account J C U O K T S params d).1
  unfolding remove_account delete_rows has_account
  remove_account-IsBacked params d backed =
      let unchanged = SameAccounts-IsBacked d (remove_account J C U O K T S params d).1 in
      elim (Result-cases (id_param J U params "account_id")) [
        | inr (e, bad) ↦ unchanged (ground (arith, bad)) backed
        | inl (id, named) ↦ elim (delete-cases id d.storage) [
          | inl (e, kept) ↦ unchanged (ground (arith, named, kept)) backed
          | inr deleted ↦
              rw (named, deleted)
                λ x missing. ground (
                  arith,
                  lookup-remove x id d.providers,
                  λ (ne : x ≢ id). backed x (
                      sym (
                        any-delete (U.to_string x) (U.to_string id) d.storage.accounts
                          (λ e. ne (to_string-injective C U x id e)))
                      ∙ missing),
                )
        ]
      ]
