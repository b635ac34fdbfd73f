-- ===== src/Handler/Registration.antt =====
-- The steps of `complete_oauth`, and what a successful one has done.
use mail_mcp.Base.{
  ℕ, ◌≡◌, refl, ap, ◌∙◌, ◌⊎◌, inl, inr, String, none, some, List, [], ◌∷◌, ok, err, Error,
  Result-cases, Option-cases, arith, nat_key, string_key, unwrap_or,
}
use mail_mcp.Base.Dict.{lookup, insert, remove}
use mail_mcp.Base.Ids.{AccountId, Ulid}
use mail_mcp.Json.{Json}
use mail_mcp.Permissions.Storage.{Storage, has_account}
use mail_mcp.Permissions.Table.{install_defaults, for_account, set_defaults, set}
use mail_mcp.Permissions.Category.{Category}
use mail_mcp.Permissions.Category
use mail_mcp.Permissions.Policy.{default_policy}
use mail_mcp.Accounts
use mail_mcp.Accounts.{Codec, Account, NewAccount, insert_account}
use mail_mcp.Approvals.{Oneshot}
use mail_mcp.Oauth.{Chrono, OAuthTokens}
use mail_mcp.Secrets
use mail_mcp.Secrets.{Keyring, refresh_token}
use mail_mcp.Mail.Provider.{MailProvider}
use mail_mcp.Ipc.Messages.{account_added, Writers}
use mail_mcp.Handler.State.{PendingOauth, Daemon, str_param, required}
use mail_mcp.Handler.Signup.{
  joined, new_account, register, complete_oauth, keep_refresh_token, take_pending,
}

module _ (J : Json) (C : Codec) (U : Ulid) (O : Oneshot) (K : Keyring) (T : Chrono) (S : Type 0)
    (W : Writers J C) (empty_config : C.Value)
    (gmail : AccountId → OAuthTokens T → String → MailProvider S) where
  create-id :
      (id made : AccountId) (now : ℕ) (new : NewAccount C) (s : Storage)
      → (Accounts.create C U id now new s).0 ≡ ok made
      → made ≡ id
  unfolding Accounts.create
  create-id id made now new s h = ground arith

  pub create-cases :
      (id : AccountId) (now : ℕ) (new : NewAccount C) (s : Storage)
      → ((Accounts.create C U id now new s).0 ≡ ok id)
        ⊎ ((e : Error) × ((Accounts.create C U id now new s).0 ≡ err e))
  create-cases id now new s = elim (Result-cases (Accounts.create C U id now new s).0) [
    | inr (e, bad) ↦ inr (e, bad)
    | inl (made, h) ↦ inl (h ∙ ap ok (create-id id made now new s h))
  ]

  -- The rows of an account that signed in, those with its policies, and the keychain with its token.
  abbrev pub new : (label email : String) → OAuthTokens T → NewAccount C
  new label email tokens = new_account J C U O K T S W empty_config gmail label email tokens.scope

  abbrev pub with_account : AccountId → ℕ → NewAccount C → Storage → Storage
  with_account id now new s = (Accounts.create C U id now new s).1

  abbrev pub with_policies : AccountId → ℕ → NewAccount C → Storage → Storage
  with_policies id now new s = (install_defaults U id (with_account id now new s)).1

  abbrev pub with_token : AccountId → String → K.Store → K.Store
  with_token id rt k = (Secrets.set K U id refresh_token rt k).1

  pub get-storage : (id : AccountId) (s : Storage) → (Accounts.get C U id s).1 ≡ s
  unfolding Accounts.get
  get-storage id s = ground arith

  pub register-eq-ok :
      (id : AccountId) (now : ℕ) (label : String) (tokens : OAuthTokens T) (email : String)
      (v : J.Value) (d d' : Daemon J.Value C O K T S)
      → register J C U O K T S W empty_config gmail id now label tokens email d ≡ (ok v, d')
      → (rt : String) × (account : Account C) × (tokens.refresh_token ≡ some rt)
        × ((Accounts.create C U id now (new label email tokens) d.storage).0 ≡ ok id)
        × ((install_defaults U id (with_account id now (new label email tokens) d.storage)).0
            ≡ ok tt)
        × ((Secrets.set K U id refresh_token rt d.secrets).0 ≡ ok tt)
        × ((Accounts.get C U id (with_policies id now (new label email tokens) d.storage)).0
            ≡ ok (some account))
        × (d' ≡ record d {
          storage = with_policies id now (new label email tokens) d.storage;
          secrets = with_token id rt d.secrets;
          providers = insert id (gmail id tokens email) d.providers;
          sent = account_added account ∷ d.sent;
        })
  unfolding register keep_refresh_token
  register-eq-ok id now label tokens email v d d' h =
      elim (create-cases id now (new label email tokens) d.storage) [
        | inr (e, bad) ↦ ground (arith, bad)
        | inl made ↦
            elim (Result-cases
              (install_defaults U id (with_account id now (new label email tokens) d.storage)).0) [
                | inr (e, bad) ↦ ground (arith, made, bad)
                | inl (_, installed) ↦ elim (Option-cases tokens.refresh_token) [
                  | inl none_given ↦ ground (arith, made, installed, none_given)
                  | inr (rt, given) ↦
                      elim (Result-cases (Secrets.set K U id refresh_token rt d.secrets).0) [
                        | inr (e, bad) ↦ ground (arith, made, installed, given, bad)
                        | inl (_, kept) ↦
                            elim (Result-cases
                              (Accounts.get C U id
                                (with_policies id now (new label email tokens) d.storage)).0) [
                                  | inr (e, bad) ↦ ground (arith, made, installed, given, kept, bad)
                                  | inl (none, bad) ↦
                                      ground (arith, made, installed, given, kept, bad)
                                  | inl (some account, stored) ↦ (
                                    rt,
                                    account,
                                    given,
                                    made,
                                    installed,
                                    kept,
                                    stored,
                                    ground (
                                      arith,
                                      made,
                                      installed,
                                      given,
                                      kept,
                                      stored,
                                      get-storage id
                                          (with_policies id now (new label email tokens) d.storage),
                                    ),
                                  )
                                ]
                      ]
                ]
              ]
      ]

  pub for_account-create :
      (id reader : AccountId) (now : ℕ) (added : NewAccount C) (s : Storage)
      → (for_account U reader (with_account id now added s)).0 ≡ (for_account U reader s).0
  unfolding Accounts.create insert_account for_account
  for_account-create id reader now added s = ground arith

  get-set_defaults :
      (id reader : AccountId) (cs : List Category) (s : Storage)
      → (Accounts.get C U reader (set_defaults U id cs s).1).0 ≡ (Accounts.get C U reader s).0
  unfolding set_defaults set Accounts.get has_account
  get-set_defaults id reader [] s = refl
  get-set_defaults id reader (c ∷ cs) s =
      ground (arith, get-set_defaults id reader cs (set U id c (default_policy c) s).1)

  pub get-install_defaults :
      (id reader : AccountId) (s : Storage)
      → (Accounts.get C U reader (install_defaults U id s).1).0 ≡ (Accounts.get C U reader s).0
  unfolding install_defaults
  get-install_defaults id reader s = get-set_defaults id reader Category.all s

  pub complete_oauth-take :
      (params : J.Value) (cid : String) (id : AccountId) (now : ℕ) (p : PendingOauth T)
      (tokens : OAuthTokens T) (email : String) (d : Daemon J.Value C O K T S)
      → required J params "challenge_id" ≡ ok cid
      → lookup cid d.pending_oauth ≡ some p
      → joined p.join ≡ ok (tokens, email)
      → complete_oauth J C U O K T S W empty_config gmail id now params d
        ≡ register J C U O K T S W empty_config gmail id now
            (unwrap_or (str_param J params "label") "")
            tokens
            email
            (record d { pending_oauth = remove cid d.pending_oauth })
  unfolding complete_oauth take_pending
  complete_oauth-take params cid id now p tokens email d named waiting done =
      ground (arith, named, waiting, done)
